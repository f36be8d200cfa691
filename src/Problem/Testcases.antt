-- ===== src/Problem/Testcases.antt =====
-- What `load_one` of src/problem.rs makes of a folder.
use mikan_judge.Prelude.{
  ◌≡◌, ◌≢◌, refl, ap, String, List, [], ◌∷◌, Option, none, some, All, unwrap_or, format, ◌==◌,
  some_inj, eq_iff, filter_map, Option-cases, Bool-cases, inl, inr, arith, if◌then◌else◌,
}
use mikan_judge.Prelude.Outcome.{Outcome, ok, err, panic, out_of_fuel, ok_inj, >>=-eq-ok}
use mikan_judge.Sandbox.{FilePath}
use mikan_judge.Sandbox.Compile.{join}
use mikan_judge.Problem.{
  FileSystem, Problem, MetaKeys, Testcase, with_defaults, problem_of, load_testcases, load_one,
  split_extension, in_stem, stem_of, load_testcase, success, expected_of, testcases_in,
}

module _ (fs : FileSystem) (problems_dir : FilePath) (id : String) where
  abbrev pub dir : FilePath
  dir = fs.join_path problems_dir id

  -- The case comes from a ".in" file of the folder of cases, and expects what the ".out" file of the
  -- same stem holds, if there is one that can be read.
  pub record CaseOf (tc : Testcase) : Type 0 where
    pub name : String
    pub stem : String
    pub named : split_extension name ≡ some (stem, "in")
    pub input : fs.read_to_string (join (join dir "testcases") name) ≡ ok tc.input
    pub expected : tc.expected ≡ (
        let out_path = join (join dir "testcases") (format (stem ∷ ".out" ∷ [])) in
        if fs.exists out_path then success (fs.read_to_string out_path) else none)

  -- The problem is made of the files of its folder, and has a test case.
  pub record MadeOf (p : Problem) : Type 0 where
    pub keys : MetaKeys
    pub toml : String
    pub md : String
    pub meta_read : fs.read_to_string (join dir "meta.toml") ≡ ok toml
    pub meta_parsed : fs.parse_meta toml ≡ ok keys
    pub statement : fs.read_to_string (join dir "statement.md") ≡ ok md
    pub some_case : p.testcases ≢ []
    pub cases : All CaseOf p.testcases
    pub same_id : p.id ≡ id
    pub title : p.title ≡ keys.title
    pub time_limit : p.time_limit_ms ≡ unwrap_or keys.time_limit_ms 2000
    pub memory_limit : p.memory_limit_kb ≡ unwrap_or keys.memory_limit_kb 262_144
    pub score : p.score ≡ unwrap_or keys.score 100
    pub html : p.html_content ≡ fs.markdown_to_html md
    pub scorer :
        p.scorer_path
        ≡ (if fs.exists (join dir "scorer.py") then some (join dir "scorer.py") else none)

  problem_of-MadeOf :
      (toml md : String) (keys : MetaKeys) (p : Problem)
      → fs.read_to_string (join dir "meta.toml") ≡ ok toml
      → fs.parse_meta toml ≡ ok keys
      → fs.read_to_string (join dir "statement.md") ≡ ok md
      → (tcs : List Testcase) → All CaseOf tcs
      → problem_of fs id dir (with_defaults keys) (fs.markdown_to_html md) tcs ≡ ok p
      → MadeOf p
  unfolding problem_of with_defaults
  problem_of-MadeOf toml md keys p a b c [] e h = cc
  problem_of-MadeOf toml md keys p a b c (tc ∷ tcs) e h = rw (← ok_inj h) (record {
    keys = keys;
    toml = toml;
    md = md;
    meta_read = a;
    meta_parsed = b;
    statement = c;
    some_case = λ n. cc;
    cases = e;
    same_id = refl;
    title = refl;
    time_limit = refl;
    memory_limit = refl;
    score = refl;
    html = refl;
    scorer = refl;
  })

  success-eq : (o : Outcome String) (s : String) → success o ≡ some s → o ≡ ok s
  success-eq (ok a) s e = cc
  success-eq (err m) s e = cc
  success-eq panic s e = cc
  success-eq out_of_fuel s e = cc

  in_stem-eq :
      (parts : Option (String × String)) (stem : String)
      → in_stem parts ≡ some stem
      → parts ≡ some (stem, "in")
  unfolding in_stem
  in_stem-eq none stem e = cc
  in_stem-eq (some (s, ext)) stem e = elim (Bool-cases (ext == "in")) [
    | inl same ↦ rw ((eq_iff ext "in").0 same) (ap (λ u. some (u, "in")) (some_inj (rw same at e)))
    | inr other ↦ absurd (ground (arith, other, e))
  ]

  load_testcase-CaseOf :
      (name : String) (tc : Testcase)
      → load_testcase fs (join dir "testcases") name ≡ some tc
      → CaseOf tc
  unfolding load_testcase stem_of expected_of
  load_testcase-CaseOf name tc e = elim (Option-cases (stem_of name)) [
    | inl nothing ↦ absurd (ground (arith, nothing, e))
    | inr (stem, there) ↦
        elim (Option-cases (success (fs.read_to_string (join (join dir "testcases") name)))) [
          | inl nothing ↦ absurd (ground (arith, nothing, there, e))
          | inr (input, read) ↦ rw (← some_inj (rw (there, read) at e)) (record {
            name = name;
            stem = stem;
            named = in_stem-eq (split_extension name) stem there;
            input = success-eq (fs.read_to_string (join (join dir "testcases") name)) input read;
            expected = refl;
          })
        ]
  ]

  All-kept :
      {P : Testcase → Type 0} (found : Option Testcase) (rest : List Testcase)
      → ((tc : Testcase) → found ≡ some tc → P tc)
      → All P rest
      → All P (elim found [ none ↦ rest | some tc ↦ tc ∷ rest ])
  All-kept none rest h hs = hs
  All-kept (some tc) rest h hs = (h tc refl, hs)

  filter_map-All :
      {A : Type 0} {P : Testcase → Type 0} (f : A → Option Testcase)
      → ((x : A) (tc : Testcase) → f x ≡ some tc → P tc)
      → (xs : List A) → All P (filter_map f xs)
  filter_map-All f h [] = tt
  filter_map-All {P = P} f h (x ∷ xs) =
      All-kept {P = P} (f x) (filter_map f xs) (h x) (filter_map-All f h xs)

  load_testcases-CaseOf : All CaseOf (load_testcases fs (join dir "testcases"))
  unfolding load_testcases testcases_in
  load_testcases-CaseOf = elim (Option-cases (fs.read_dir (join dir "testcases"))) [
    | inl nothing ↦ rw nothing tt
    | inr (names, there) ↦
        rw there (filter_map-All (load_testcase fs (join dir "testcases")) load_testcase-CaseOf _)
  ]

  -- A problem that is read has its title, its limits and its score from its meta.toml, with 2000 ms,
  -- 262144 KB and 100 points for the keys that are missing, and its text from its statement.md; it
  -- has at least one test case, and each comes from a ".in" file of its folder and expects what the
  -- ".out" file of the same stem holds, if there is one that can be read.
  pub load_one-MadeOf : (p : Problem) → load_one fs problems_dir id ≡ ok p → MadeOf p
  unfolding load_one
  load_one-MadeOf p h =
      let (toml, a, h1) = >>=-eq-ok (fs.read_to_string (join dir "meta.toml")) _ h in
      let (keys, b, h2) = >>=-eq-ok (fs.parse_meta toml) _ h1 in
      let (md, c, h3) = >>=-eq-ok (fs.read_to_string (join dir "statement.md")) _ h2 in
      problem_of-MadeOf toml md keys p a b c (load_testcases fs (join dir "testcases"))
        load_testcases-CaseOf h3
