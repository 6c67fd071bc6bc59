-- ===== src/Sgx/Tcb/Levels.antt =====
-- Which TCB level the loop chooses.
use ravl.Prelude.{ℕ, ◌≡◌, refl, Bool, true, false, ◌&&◌, List, [], ◌∷◌, ◌++◌, Bytes, All, arith}
use ravl.Result.{Result, ok, bind_returned, ok-injective, ◌>>=◌}
use ravl.Json.{JsonLibrary}
use ravl.Sgx.Extension.{CertificateExtension}
use ravl.Sgx.Tcb.{TcbLevel, has_status, matches, choose, read_level, levels_loop}

-- A level is passed over if it does not match, or if its status is empty.
abbrev pub Skipped : CertificateExtension → TcbLevel → Type 0
Skipped ext level = (matches ext level && has_status level) ≡ false

module _ (json : JsonLibrary) (parse_time_point : Bytes → Result ℕ) where
  -- All the levels of the document, in their order.
  unfoldable pub read_levels : List json.Json → Result (List TcbLevel)
  read_levels [] = ok []
  read_levels (j ∷ js) = do
    level ← read_level json parse_time_point j
    rest ← read_levels js
    ok (level ∷ rest)

  -- The level is the first of the document's that the platform reaches.
  pub record IsFirst (ext : CertificateExtension) (js : List json.Json) (level : TcbLevel)
      : Type 0 where
    pub before : List TcbLevel
    pub after : List TcbLevel
    pub all_levels : read_levels js ≡ ok (before ++ (level ∷ after))
    pub skipped : All (Skipped ext) before
    pub matching : matches ext level ≡ true

  module _ (ext : CertificateExtension) where
    levels_loop_kept :
        (chosen level : TcbLevel) (js : List json.Json)
        → has_status chosen ≡ true
        → levels_loop json parse_time_point ext chosen js ≡ ok level
        → (chosen ≡ level) × (ls : List TcbLevel) × (read_levels js ≡ ok ls)
    unfolding levels_loop read_levels
    levels_loop_kept chosen level [] has e = (ok-injective chosen level e, [], refl)
    levels_loop_kept chosen level (j ∷ js) has e =
        let (l, e₁, f) = bind_returned (read_level json parse_time_point j) _ e in
        let (same, ls, rest) = levels_loop_kept chosen level js has (ground (arith, has, e₁)) in
        (same, l ∷ ls, ground (arith, f, rest))

    module _ (level : TcbLevel) (j : json.Json) (js : List json.Json) where
      skip_first :
          (l : TcbLevel)
          → read_level json parse_time_point j ≡ ok l
          → Skipped ext l
          → IsFirst ext js level
          → IsFirst ext (j ∷ js) level
      unfolding read_levels
      skip_first l f skip first = record {
        before = l ∷ first.before;
        after = first.after;
        all_levels = ground (arith, f, first.all_levels);
        skipped = (skip, first.skipped);
        matching = first.matching;
      }

      first_cases :
          (chosen l : TcbLevel)
          → has_status chosen ≡ false
          → read_level json parse_time_point j ≡ ok l
          → ((c : TcbLevel)
              → has_status c ≡ false
              → levels_loop json parse_time_point ext c js ≡ ok level
              → IsFirst ext js level)
          → (m s : Bool) → matches ext l ≡ m
          → has_status l ≡ s
          → levels_loop json parse_time_point ext (choose ext chosen l) js ≡ ok level
          → IsFirst ext (j ∷ js) level
      unfolding read_levels
      first_cases chosen l none f later false s hm hs e =
          skip_first l f (ground (arith, hm)) (later chosen none (ground (arith, hm, none, e)))
      first_cases chosen l none f later true false hm hs e =
          skip_first l f (ground (arith, hm, hs)) (later l hs (ground (arith, hm, none, e)))
      first_cases chosen l none f later true true hm hs e =
          let (same, ls, rest) = levels_loop_kept l level js hs (ground (arith, hm, none, e)) in
          record {
            before = [];
            after = ls;
            all_levels = ground (arith, f, rest, same);
            skipped = tt;
            matching = ground (arith, same, hm);
          }

    pub levels_loop-IsFirst :
        (chosen level : TcbLevel) (js : List json.Json)
        → has_status chosen ≡ false
        → has_status level ≡ true
        → levels_loop json parse_time_point ext chosen js ≡ ok level
        → IsFirst ext js level
    unfolding levels_loop read_levels
    levels_loop-IsFirst chosen level [] none has e =
        absurd (ground (arith, none, has, ok-injective chosen level e))
    levels_loop-IsFirst chosen level (j ∷ js) none has e =
        let (l, e₁, f) = bind_returned (read_level json parse_time_point j) _ e in
        first_cases level j js chosen l none f (λ c no e'. levels_loop-IsFirst c level js no has e')
          (matches ext l) (has_status l) refl refl e₁
