-- ===== src/Auth/Validation/Accepted.antt =====
-- Which login requests pass, by what the library documents of its rules.
use Prim.Native.String.{len}
use micro_services.Base.{
  ℕ, String, Bool, true, ◌≡◌, ◌≢◌, ◌↔◌, ◌≤◌, none, List, [], ◌∷◌, ◌||◌, ◌&&◌, All, leb, not, ◌==◌,
  ==_iff, string_eq, arith,
}
use micro_services.Auth.Validation.{LoginRequest, Ozzo, validate}

-- ValidateStruct returns nil exactly when every rule accepts its field. Required refuses the empty
-- text; the other rules accept it, and `length` counts bytes.
pub record IsOzzo (O : Ozzo) : Type 0 where
  pub accepts : O.Rule → String → Bool
  pub is_email : String → Bool
  pub validate_struct_iff :
      (fields : List (String × List O.Rule))
      → (O.validate_struct fields ≡ none)
        ↔ All (λ (f : String × List O.Rule). All (λ rule. accepts rule f.0 ≡ true) f.1) fields
  pub accepts-required : (s : String) → accepts O.required s ≡ not (s == "")
  pub accepts-email_format : (s : String) → accepts O.email_format s ≡ (s == "" || is_email s)
  pub accepts-length :
      (lo hi : ℕ) (s : String)
      → accepts (O.length lo hi) s ≡ (s == "" || (leb lo (len s) && leb (len s) hi))

module _ (O : Ozzo) (L : IsOzzo O) where
  -- A login request passes exactly when its email is not empty, has the format of an email and 5 to
  -- 100 bytes, and its password is not empty and has 6 to 100 bytes.
  pub validate_iff :
      (r : LoginRequest)
      → (validate O r ≡ none) ↔ (
          (r.email ≢ "")
          × (L.is_email r.email ≡ true)
          × (5 ≤ len r.email)
          × (len r.email ≤ 100)
          × (r.password ≢ "")
          × (6 ≤ len r.password)
          × (len r.password ≤ 100))
  unfolding validate
  validate_iff r = ground (
    arith,
    L.validate_struct_iff (
        (r.email, O.required ∷ O.email_format ∷ O.length 5 100 ∷ [])
        ∷ (r.password, O.required ∷ O.length 6 100 ∷ [])
        ∷ []),
    L.accepts-required r.email,
    L.accepts-email_format r.email,
    L.accepts-length 5 100 r.email,
    L.accepts-required r.password,
    L.accepts-length 6 100 r.password,
    ==_iff r.email "",
    ==_iff r.password "",
  )
