-- ===== src/Cache/Tests.antt =====
-- A server in memory that keeps the laws, and the theorems at concrete data.
use Prim.Native.Char.{Char, code}
use Prim.Native.String.{◌∷◌}
use text.Mathlib.TextLemmas.{cons-append, head-eq_of_cons-eq}
use micro_services.Base.{
  inl, inr, leb, ◌-◌, List, [], ◌∷◌, ap, ◌∙◌, ℕ, String, ◌≡◌, ◌≢◌, refl, Option, none, some, ◌<>◌,
  ◌+◌, ◌==◌, ==_iff, ==_refl, string_eq, if◌then◌else◌, ltb, arith,
}
use micro_services.Errors.{plain, Result, ok, err}
use micro_services.Cache.Server.{Redis, IsLawful}
use micro_services.Cache.{Cache, make_key, set, get, delete, new_client}
use micro_services.Cache.Sharing.{Turn, firsts, first, turns, turns-eq-shown}
use micro_services.Cache.Model.{Op, aged, apply_all, set_op, delete_op, wait, IsStore}
use micro_services.Cache.Refinement.{get-eq-shown, perform_all, shown}
use micro_services.Cache.Laws.{AreApart, caches_collide}

record Memory : Type 0 where
  now : ℕ
  cell : String → Option (String × ℕ)

abbrev put : String → Option (String × ℕ) → Memory → Memory
put k x m = record m { cell = λ j. if j == k then x else m.cell j }

-- A value is there until the clock reaches its deadline.
abbrev alive : ℕ → Option (String × ℕ) → Result String
alive now none = err (plain "redis: nil")
alive now (some (v, deadline)) = if ltb now deadline then ok v else err (plain "redis: nil")

abbrev memory : Redis
memory = record {
  State = Memory;
  elapse = λ d m. record m { now = m.now + d };
  Any = String;
  Reply = Result String;
  Client = String;
  new_client = λ addr password db. addr;
  ping = λ c m. none;
  set = λ c k v ttl m. (none, put k (some (v, m.now + ttl)) m);
  get = λ c k m. alive m.now (m.cell k);
  scan = λ r. r;
  del = λ c k m. (none, put k none m);
  redis_nil = plain "redis: nil";
}

memory-IsLawful : IsLawful memory
memory-IsLawful = record {
  scan-get-set = λ c k v ttl d m _ _ _ h. ground (arith, ==_refl k);
  scan-get-set_expired = λ c k v ttl d m _ _ _ h. ground (arith, ==_refl k);
  get-set_ne = λ c j k v ttl m h. ground (arith, ==_iff k j);
  scan-get-del = λ c k m _. ground (arith, ==_refl k);
  get-del_ne = λ c j k m h. ground (arith, ==_iff k j);
}

abbrev start : Memory
start = record { now = 5; cell = λ k. none }

abbrev sessions : Cache memory
sessions = record { client = "redis:6379"; prefix = "a"; ttl = 60000000000 }

abbrev limits : Cache memory
limits = record { client = "redis:6379"; prefix = "b"; ttl = 1000000000 }

abbrev nested : Cache memory
nested = record { client = "redis:6379"; prefix = "a-session"; ttl = 60000000000 }

-- The key as Redis sees it.
key_text : make_key "auth" "u1" ≡ "auth-u1"
unfolding make_key
key_text = refl

connect : new_client memory "redis:6379" "" start ≡ ok "redis:6379"
unfolding new_client
connect = refl

other_start : (c d : Char) (r : String) → code c ≢ code d → (c ∷ "") ≢ (d ∷ "") <> "-" <> r
other_start c d r h e = h (ap code (head-eq_of_cons-eq (e ∙ cons-append d "" _)))

no_dash_back : AreApart "b" "a"
no_dash_back = (
  ground (arith, ==_iff {T = String} "b" "a"),
  λ r. other_start "a" "b" r (omega arith),
  λ r. other_start "b" "a" r (omega arith),
)

caches_collide_example :
    get memory nested "u1" (memory.elapse 5 (set memory sessions "session-u1" "ann" start).1)
    ≡ ok "ann"
unfolding set
caches_collide_example =
    caches_collide memory memory-IsLawful sessions nested "session" "u1" "ann" 5 start refl refl
      (omega arith) refl (omega arith)

abbrev time_left : ℕ → Option (String × ℕ) → Option (String × ℕ)
time_left now none = none
time_left now (some (v, deadline)) = if leb deadline now then none else some (v, deadline - now)

time_left-some :
    (now : ℕ) (e : Option (String × ℕ)) (v : String) (left : ℕ)
    → time_left now e ≡ some (v, left)
    → alive now e ≡ ok v
time_left-some now none v left h = ground (arith, h)
time_left-some now (some (u, deadline)) v left h = ground (arith, h)

time_left-none :
    (now : ℕ) (e : Option (String × ℕ))
    → time_left now e ≡ none
    → alive now e ≡ err (plain "redis: nil")
time_left-none now none h = refl
time_left-none now (some (u, deadline)) h = ground (arith, h)

time_left-add :
    (now d : ℕ) (e : Option (String × ℕ)) → time_left (now + d) e ≡ aged d (time_left now e)
time_left-add now d none = refl
time_left-add now d (some (u, deadline)) = ground arith

memory-IsStore : IsStore memory
memory-IsStore = record {
  live = λ c k m. time_left m.now (m.cell k);
  scan-get_some = λ c k m v left h. time_left-some m.now (m.cell k) v left h;
  scan-get_none = λ c k m h. time_left-none m.now (m.cell k) h;
  live-elapse = λ c k d m. time_left-add m.now d (m.cell k);
  live-set = λ c k v ttl m _ lasting _. ground (arith, lasting, ==_refl k);
  live-set_ne = λ c j k v ttl m h. ground (arith, ==_iff k j);
  live-del = λ c k m _. ground (arith, ==_refl k);
  live-del_ne = λ c j k m h. ground (arith, ==_iff k j);
}

-- A value that was overwritten and a value that was deleted, 59 seconds later.
abbrev session : List (Op String)
session =
    set_op "u1" "ann"
    ∷ set_op "u2" "bob"
    ∷ wait 30000000000
    ∷ set_op "u1" "ana"
    ∷ delete_op "u2"
    ∷ wait 59000000000
    ∷ []

get-eq-shown_example :
    get memory sessions "u1" (perform_all memory sessions session start)
    ≡ shown memory.redis_nil (apply_all sessions.ttl session (λ k. none) "u1")
unfolding set delete memory-IsStore
get-eq-shown_example =
    get-eq-shown memory sessions memory-IsStore session (λ k. none) start "u1" (omega arith, refl)
      (λ k. refl) (refl, (refl, (refl, (refl, (refl, (refl, tt))))))

abbrev minute : ℕ
minute = 60000000000

-- Both services write the key u1.
abbrev shared : List (Turn String)
shared = inl (set_op "u1" "ann") ∷ inr (set_op "u1" "3") ∷ inr (wait 5) ∷ inr (delete_op "u1") ∷ []

turns-eq-shown_example :
    get memory
      (first memory "redis:6379" "a" "b" minute 7000000)
      "u1"
      (turns memory "redis:6379" "a" "b" minute 7000000 shared start)
    ≡ shown memory.redis_nil (apply_all minute (firsts shared) (λ k. none) "u1")
unfolding set delete memory-IsStore
turns-eq-shown_example =
    turns-eq-shown memory "redis:6379" "a" "b" minute 7000000 memory-IsStore no_dash_back
      (omega arith, refl) shared (λ k. none) start "u1" (λ k. refl)
      (refl, (refl, (refl, (refl, tt))))
