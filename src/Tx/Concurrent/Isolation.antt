-- ===== src/Tx/Concurrent/Isolation.antt =====
-- However the calls interleave, each of them is all or nothing.
use mathlib.Core.List.{append-nil, append_assoc}
use mathlib.Core.Path.{subst}
use micro_services.Base.{
  ℕ, String, ◌≡◌, ◌≢◌, ◌⊎◌, inl, inr, Bool-cases, ◌≤◌, refl, sym, ap, ◌∙◌, Option, none, some, List,
  [], ◌∷◌, ◌++◌, ◌==◌, nat_eq, ==_refl, ==_iff, arith,
}
use micro_services.Errors.{Error}
use micro_services.Tx.Sql.{Db, Driver, rolled_back, mark}
use micro_services.Tx.{Exit, returns, panics, finish}
use micro_services.Tx.Lifecycle.{begun, finish-eq-none}
use micro_services.Tx.Atomic.{durable, finish-written}
use micro_services.Tx.Concurrent.{
  Phase, asking, refused, working, leaving, ended, System, put, moved, Step, begin_fails, begins,
  stmt_runs, stmt_fails, crashes, succeeds, finishes, cancels, number, Reach, fresh, later,
}
use micro_services.Tx.Concurrent.Held.{
  stmts_of, stmts_of-durable_by, Kept, Kept-refl, Held-mark, Held, Held-Kept, Held-lt,
}
use micro_services.Tx.Concurrent.Moves.{
  begin_tx-eq-ok, exec_tx-eq-none, exec_tx-eq-some, Kept-begun, stmts_of_new, Kept-exec, Kept-mark,
  finish-next, Kept-finish, finish_uncommitted,
}

pub put-cases :
    (i : ℕ) (p : Phase) (f : ℕ → Phase) (j : ℕ)
    → ((j ≡ i) × (put i p f j ≡ p)) ⊎ ((j ≢ i) × (put i p f j ≡ f j))
put-cases i p f j = elim (Bool-cases (j == i)) [
  | inl same ↦ inl ((==_iff j i).0 same, rw same refl)
  | inr other ↦ inr (ground (arith, other, ==_iff j i), rw other refl)
]

module _ (d : Driver) (refusal : Db → ℕ → String → Option Error) (script : ℕ → List String) where
  pub record Inv (s : System) : Type 0 where
    pub clear : (u : ℕ) → s.db.next ≤ u → stmts_of u s.db.written ≡ []
    pub held : (i : ℕ) → Held (script i) (s.phase i) s.db
    pub apart : (i j t : ℕ) → number (s.phase i) ≡ some t → number (s.phase j) ≡ some t → i ≡ j

  Inv-start :
      (db : Db)
      → ((u : ℕ) → db.next ≤ u → stmts_of u db.written ≡ [])
      → Inv (record { db = db; phase = λ i. asking })
  Inv-start db clean = record { clear = clean; held = λ i. tt; apart = λ i j t e f. cc }

  -- A step of the call i that moves on no transaction but t, which no other call has.
  Inv-moved :
      (s : System) (i t : ℕ) (p : Phase) (db : Db)
      → Inv s
      → Kept t s.db db
      → ((u : ℕ) → number p ≡ some u → u ≡ t)
      → Held (script i) p db
      → ((u : ℕ) → db.next ≤ u → stmts_of u db.written ≡ [])
      → ((j : ℕ) → j ≢ i → number (s.phase j) ≢ some t)
      → Inv (moved s i p db)
  Inv-moved s i t p db I K own now clean others = record {
    clear = clean;
    held = λ j. elim (put-cases i p s.phase j) [
      | inl (same, at) ↦
          subst (λ q. Held (script j) q db) (sym at)
            (subst (λ k. Held (script k) p db) (sym same) now)
      | inr (other, at) ↦
          subst (λ q. Held (script j) q db) (sym at)
            (Held-Kept (script j) (s.phase j) t K (others j other) (I.held j))
    ];
    apart = λ j k u e f. elim (put-cases i p s.phase j) [
      | inl (same, at) ↦ elim (put-cases i p s.phase k) [
        | inl (same', at') ↦ same ∙ sym same'
        | inr (other', at') ↦
            absurd
              (others k other' (ap number (sym at') ∙ f ∙ ap some (own u (ap number (sym at) ∙ e))))
      ]
      | inr (other, at) ↦ elim (put-cases i p s.phase k) [
        | inl (same', at') ↦
            absurd
              (others j other (ap number (sym at) ∙ e ∙ ap some (own u (ap number (sym at') ∙ f))))
        | inr (other', at') ↦ I.apart j k u (ap number (sym at) ∙ e) (ap number (sym at') ∙ f)
      ]
    ];
  }

  -- The other calls have no transaction of the number of this one.
  apart_from :
      {s : System} (I : Inv s) (i : ℕ) {t : ℕ}
      → number (s.phase i) ≡ some t
      → (j : ℕ) → j ≢ i
      → number (s.phase j) ≢ some t
  apart_from I i e j ne f = ne (I.apart j i _ f e)

  apart_new : {s : System} (I : Inv s) (j : ℕ) → number (s.phase j) ≢ some s.db.next
  apart_new {s} I j e =
      let lt = Held-lt (script j) (s.phase j) s.db.next s.db e (I.held j) in omega arith

  Inv-begins :
      (s : System) (i : ℕ) → Inv s → Inv (moved s i (working s.db.next [] (script i)) (begun s.db))
  Inv-begins s i I =
      Inv-moved s i s.db.next (working s.db.next [] (script i)) (begun s.db) I (Kept-begun s.db)
        (λ u e. ground arith)
        (omega arith, ground (arith, ==_refl s.db.next), I.clear s.db.next (omega arith), refl)
        (λ u le. I.clear u (omega arith)) (λ j ne. apart_new I j)

  Inv-runs :
      (s : System) (i t : ℕ) (done left : List String) (stmt : String)
      → Inv s
      → s.phase i ≡ working t done (stmt ∷ left)
      → Inv (
          moved s i
            (working t (done ++ stmt ∷ []) left)
            (record (s.db) { written = s.db.written ++ (t, stmt) ∷ [] }))
  Inv-runs s i t done left stmt I at =
      let (lt, on, ran, rest) = subst (λ q. Held (script i) q s.db) at (I.held i) in
      Inv-moved s i t (working t (done ++ stmt ∷ []) left) _ I (Kept-exec t stmt s.db)
        (λ u e. ground arith)
        (
          lt,
          on,
          (stmts_of_new t t stmt s.db.written).1 refl ∙ ap (λ xs. xs ++ stmt ∷ []) ran,
          append_assoc done (stmt ∷ []) left ∙ rest,
        )
        (λ u le. (stmts_of_new t u stmt s.db.written).0 (omega arith) ∙ I.clear u le)
        (apart_from I i (ap number at))

  -- A call whose function ends, with the database as it was.
  Inv-leaves :
      (s : System) (i t : ℕ) (done left : List String) (x : Exit)
      → Inv s
      → s.phase i ≡ working t done left
      → (x ≡ returns none → left ≡ [])
      → Inv (moved s i (leaving t done x) s.db)
  Inv-leaves s i t done left x I at whole =
      let (lt, on, ran, rest) = subst (λ q. Held (script i) q s.db) at (I.held i) in
      Inv-moved s i t (leaving t done x) s.db I (Kept-refl t s.db) (λ u e. ground arith)
        (
          lt,
          on,
          ran,
          λ good. sym (append-nil done) ∙ ap (λ xs. done ++ xs) (sym (whole good)) ∙ rest,
        )
        I.clear (apart_from I i (ap number at))

  Inv-finishes :
      (s : System) (i t : ℕ) (done : List String) (x : Exit)
      → Inv s
      → s.phase i ≡ leaving t done x
      → Inv (moved s i (ended t done x (finish d t (x, s.db)).0) (finish d t (x, s.db)).1)
  Inv-finishes s i t done x I at =
      let (lt, on, ran, whole) = subst (λ q. Held (script i) q s.db) at (I.held i) in
      Inv-moved s i t (ended t done x (finish d t (x, s.db)).0) _ I (Kept-finish d t x s.db)
        (λ u e. ground arith)
        (
          omega (arith, finish-next d t (x, s.db)),
          ap (stmts_of t) (finish-written d t (x, s.db)) ∙ ran,
          λ good. let (ok_fn, yes_at) = finish-eq-none d t (x, s.db) good in (yes_at, whole ok_fn),
          finish_uncommitted d t x s.db on,
        )
        (λ u le.
          ap (stmts_of u) (finish-written d t (x, s.db))
          ∙ I.clear u (omega (arith, finish-next d t (x, s.db))))
        (apart_from I i (ap number at))

  Step-Inv : (s : System) {i : ℕ} {s' : System} → Inv s → Step d refusal script s i s' → Inv s'
  Step-Inv s I (begin_fails i {e} at h) =
      Inv-moved s i s.db.next (refused e) s.db I (Kept-refl s.db.next s.db) (λ u e. cc) tt I.clear
        (λ j ne. apart_new I j)
  Step-Inv s I (begins i {t} {db} at h) =
      let (new, after) = begin_tx-eq-ok d s.db h in rw (new, after) (Inv-begins s i I)
  Step-Inv s I (stmt_runs i {t} {done} {left} {stmt} {db} at h) =
      rw (exec_tx-eq-none refusal t stmt s.db h) (Inv-runs s i t done left stmt I at)
  Step-Inv s I (stmt_fails i {t} {done} {left} {stmt} {e} {db} at h) =
      rw (exec_tx-eq-some refusal t stmt s.db h)
        (Inv-leaves s i t done (stmt ∷ left) (returns (some e)) I at (λ e. cc))
  Step-Inv s I (crashes i {t} {done} {left} p at) =
      Inv-leaves s i t done left (panics p) I at (λ e. cc)
  Step-Inv s I (succeeds i {t} {done} at) = Inv-leaves s i t done [] (returns none) I at (λ e. refl)
  Step-Inv s I (finishes i {t} {done} {x} at) = Inv-finishes s i t done x I at
  Step-Inv s I (cancels i {t} has on) =
      Inv-moved s i t (s.phase i) (mark t rolled_back s.db) I (Kept-mark t s.db)
        (λ u e. ground (arith, e, has)) (Held-mark (script i) (s.phase i) t s.db has on (I.held i))
        I.clear (apart_from I i has)

  pub Reach-Inv :
      {start : Db} {s : System}
      → ((u : ℕ) → start.next ≤ u → stmts_of u start.written ≡ [])
      → Reach d refusal script start s
      → Inv s
  Reach-Inv {start} clean fresh = Inv-start start clean
  Reach-Inv clean (later {s} r k) = Step-Inv s (Reach-Inv clean r) k

  -- However many calls of WithinTx interleave their steps on one database, and whenever their
  -- contexts are cancelled, at every moment: a call that has ended left all the statements that it was
  -- to run, in order, if it returned nil, and none of them if its function returned an error or
  -- panicked. (At the start no statement has the number of a transaction still to come. Where the
  -- function returned nil and WithinTx an error, Commit has failed, and nothing is stated.)
  pub reach_all_or_nothing :
      {start : Db} {s : System} {i t : ℕ} {done : List String} {body x : Exit}
      → ((u : ℕ) → start.next ≤ u → stmts_of u start.written ≡ [])
      → Reach d refusal script start s
      → s.phase i ≡ ended t done body x
      → (x ≡ returns none → stmts_of t (durable s.db) ≡ script i)
        × (body ≢ returns none → stmts_of t (durable s.db) ≡ [])
  reach_all_or_nothing {start} {s} {i} {t} {done} {body} {x} clean r at =
      let I = Reach-Inv clean r in
      let (lt, ran, won, lost) = subst (λ q. Held (script i) q s.db) at (I.held i) in
      let seen = stmts_of-durable_by s.db.status t s.db.written in
      (
        λ good. let (on, all) = won good in seen ∙ rw on (ran ∙ all),
        λ bad. seen ∙ ground (arith, lost bad),
      )
