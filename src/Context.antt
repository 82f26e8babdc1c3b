-- ===== src/Context.antt =====
-- Go's context.Context, as far as the program uses it: the values, found by key from the inside out.
-- A key is compared with its type, so keys of two types are never equal.
use micro_services.Base.{
  refl, ◌≢◌, Bool-cases, inl, inr, String, Bool, true, false, ◌≡◌, ◌↔◌, ◌&&◌, Option, none, some,
  arith, Eq, ◌==◌, ==_iff, string_eq, if◌then◌else◌,
}

-- utilhttp's ContextKey, utiltx's txKey{}, and a key of any other type, by the type and the value.
pub data Key : Type 0 where
  context_key : String → Key
  tx_key : Key
  other_key : String → String → Key

abbrev pub key_beq : Key → Key → Bool
key_beq (context_key s) (context_key t) = s == t
key_beq tx_key tx_key = true
key_beq (other_key s u) (other_key t v) = s == t && u == v
key_beq _ _ = false

pub key_beq_iff : (j k : Key) → (key_beq j k ≡ true) ↔ (j ≡ k)
key_beq_iff (context_key s) (context_key t) = ground (arith, ==_iff s t)
key_beq_iff (other_key s u) (other_key t v) = ground (arith, ==_iff s t, ==_iff u v)
key_beq_iff tx_key tx_key = ground arith
key_beq_iff (context_key s) tx_key = ground arith
key_beq_iff (context_key s) (other_key t v) = ground arith
key_beq_iff tx_key (context_key s) = ground arith
key_beq_iff tx_key (other_key t v) = ground arith
key_beq_iff (other_key s u) (context_key t) = ground arith
key_beq_iff (other_key s u) tx_key = ground arith

instance abbrev pub key_eq : Eq Key
key_eq = record { same = key_beq; same_iff = key_beq_iff }

-- `V` stands for `any`.
pub data Context (V : Type 0) : Type 0 where
  background : Context V
  with_value : Context V → Key → V → Context V

unfoldable pub ctx_value : {V : Type 0} → Context V → Key → Option V
ctx_value background k = none
ctx_value (with_value ctx j v) k = if j == k then some v else ctx_value ctx k

module _ {V : Type 0} where
  pub ctx_value-with_value_self :
      (ctx : Context V) (k : Key) (v : V) → ctx_value (with_value ctx k v) k ≡ some v
  unfolding ctx_value
  ctx_value-with_value_self ctx k v = rw ((key_beq_iff k k).1 refl)

  pub ctx_value-with_value_ne :
      (ctx : Context V) (j k : Key) (v : V)
      → j ≢ k
      → ctx_value (with_value ctx j v) k ≡ ctx_value ctx k
  unfolding ctx_value
  ctx_value-with_value_ne ctx j k v h = elim (Bool-cases (key_beq j k)) [
    | inl same ↦ absurd (h ((key_beq_iff j k).0 same))
    | inr differ ↦ rw differ
  ]
