-- ===== src/Sql/Reading.antt =====
-- A Scan whose values can all be read.
use micro_services.Base.{ℕ, suc, ◌≡◌, refl, none, some, List, [], ◌∷◌}
use micro_services.Errors.{ok}
use micro_services.Sql.{Dest, ScanErrors, same_count, assign, scan}

module _ {V A : Type 0} where
  infixr 60 ◌▸◌
  -- The destinations take the values one by one, from the first variable to the last.
  pub data Reads : List (Dest V A) → List V → A → A → Type 0 where
    nothing : {i : A} → Reads [] [] i i
    ◌▸◌ :
        {d : Dest V A} {ds : List (Dest V A)} {v : V} {vs : List V} {i j k : A}
        → d v i ≡ some j
        → Reads ds vs j k
        → Reads (d ∷ ds) (v ∷ vs) i k

  module _ (S : ScanErrors) where
    Reads-count :
        {ds : List (Dest V A)} {vs : List V} {i j : A} → Reads ds vs i j → same_count S ds vs ≡ none
    Reads-count nothing = refl
    Reads-count (h ▸ r) = Reads-count r

    Reads-assign :
        {ds : List (Dest V A)} {vs : List V} {i j : A} (n : ℕ)
        → Reads ds vs i j
        → assign S n ds vs i ≡ (j, none)
    Reads-assign n nothing = refl
    Reads-assign n (h ▸ r) = rw h (Reads-assign (suc n) r)

    pub Reads-scan :
        {ds : List (Dest V A)} {vs : List V} {i j : A}
        → Reads ds vs i j
        → scan S ds i (ok vs) ≡ (j, none)
    Reads-scan r = rw (scan, Reads-count r) (Reads-assign 0 r)
