-- ===== src/Cache/Keys.antt =====
-- When two caches of one client use the same Redis key.
use Prim.Native.String.{String, [], ◌∷◌}
use Prim.Native.Char.{Char}
use text.Mathlib.TextLemmas.{nil-append, cons-append, head-eq_of_cons-eq, tail-eq_of_cons-eq}
use mathlib.Core.Path.{ap₂}
use micro_services.Base.{
  ◌≡◌, refl, sym, ap, <>_cancel_left, ◌∙◌, ◌↔◌, ◌⊎◌, inl, inr, ◌<>◌, <>_assoc,
}
use micro_services.Cache.{make_key}

-- The key (q, j) is (p, k) with a part r of k moved behind the prefix.
abbrev pub Extends : (p k q j : String) → Type 0
Extends p k q j = (r : String) × (q ≡ p <> "-" <> r) × (k ≡ r <> "-" <> j)

abbrev pub Clash : (p k q j : String) → Type 0
Clash p k q j = ((p ≡ q) × (k ≡ j)) ⊎ (Extends p k q j ⊎ Extends q j p k)

dash-append : (s : String) → "-" <> s ≡ "-" ∷ s
dash-append s = cons-append "-" [] s ∙ ap (λ t. "-" ∷ t) (nil-append s)

-- The first keys begin with the dash, the second with d.
empty-Extends :
    (k : String) (d : Char) (q j : String)
    → "" <> ("-" <> k) ≡ (d ∷ q) <> ("-" <> j)
    → Extends "" k (d ∷ q) j
empty-Extends k d q j e =
    let e' : "-" ∷ k ≡ d ∷ (q <> "-" <> j) =
      sym (nil-append _ ∙ dash-append k) ∙ e ∙ cons-append d q _ in
    (
      q,
      ap (λ c. c ∷ q) (sym (head-eq_of_cons-eq e')) ∙ sym (nil-append _ ∙ dash-append q),
      tail-eq_of_cons-eq e',
    )

cons-Extends :
    {c d : Char} (p k q j : String) → c ≡ d → Extends p k q j → Extends (c ∷ p) k (d ∷ q) j
cons-Extends {d} p k q j h (r, e, f) =
    (r, ap₂ (λ a t. a ∷ t) (sym h) e ∙ sym (cons-append _ p _), f)

cons-Clash : {c d : Char} (p k q j : String) → c ≡ d → Clash p k q j → Clash (c ∷ p) k (d ∷ q) j
cons-Clash p k q j h (inl (e, f)) = inl (ap₂ (λ a t. a ∷ t) h e, f)
cons-Clash p k q j h (inr (inl x)) = inr (inl (cons-Extends p k q j h x))
cons-Clash p k q j h (inr (inr x)) = inr (inr (cons-Extends q j p k (sym h) x))

make_key-Clash : (p q k j : String) → make_key p k ≡ make_key q j → Clash p k q j
unfolding make_key
make_key-Clash [] [] k j e = inl (refl, <>_cancel_left "-" k j (<>_cancel_left "" _ _ e))
make_key-Clash [] (d ∷ q) k j e = inr (inl (empty-Extends k d q j e))
make_key-Clash (c ∷ p) [] k j e = inr (inr (empty-Extends j c p k (sym e)))
make_key-Clash (c ∷ p) (d ∷ q) k j e =
    let e' : c ∷ (p <> "-" <> k) ≡ d ∷ (q <> "-" <> j) =
      sym (cons-append c p _) ∙ e ∙ cons-append d q _ in
    cons-Clash p k q j (head-eq_of_cons-eq e') (make_key-Clash p q k j (tail-eq_of_cons-eq e'))

Extends-make_key : (p k q j : String) → Extends p k q j → make_key p k ≡ make_key q j
unfolding make_key
Extends-make_key p k q j (r, e, f) = rw (e, f) (simp <>_assoc)

Clash-make_key : (p k q j : String) → Clash p k q j → make_key p k ≡ make_key q j
unfolding make_key
Clash-make_key p k q j (inl (e, f)) = rw (e, f)
Clash-make_key p k q j (inr (inl x)) = Extends-make_key p k q j x
Clash-make_key p k q j (inr (inr x)) = sym (Extends-make_key q j p k x)

-- Two caches use the same Redis key exactly where prefix and key agree, or where one prefix is the
-- other followed by a dash and a part that the other key begins with.
pub make_key_eq_iff :
    (p k q j : String)
    → (make_key p k ≡ make_key q j) ↔ (((p ≡ q) × (k ≡ j)) ⊎ (Extends p k q j ⊎ Extends q j p k))
make_key_eq_iff p k q j = (make_key-Clash p q k j, Clash-make_key p k q j)
