-- ===== src/Frostd/Delay.antt =====
-- `HashMapDelay` and `HashSetDelay` of the crate delay_map: what the server relies on.
use frost_tools.Prelude.{
  ℕ, ◌+◌, ◌≤◌, ◌≡◌, Bool, true, false, Option, none, some, nat_beq, if◌then◌else◌, is_some,
}
use frost_tools.Api.{Uuid}

-- A map whose entries have a deadline, `timeout` after the insertion until it is renewed. The clock
-- value at which an operation runs is its argument `now`. `set` is a write through `get_mut`, and
-- `next` one poll of the stream of entries that have timed out.
pub record DelayMap (timeout : ℕ) (V : Type 0) : Type 1 where
  pub M : Type 0
  pub new : M
  pub get : M → Uuid → Option V
  pub deadline : M → Uuid → Option ℕ
  pub insert : ℕ → Uuid → V → M → M
  pub set : Uuid → V → M → M
  pub remove : Uuid → M → M
  pub update_timeout : ℕ → Uuid → ℕ → M → M
  pub next : ℕ → M → Option (Uuid × V × M)
  pub get_new : (k : Uuid) → get new k ≡ none
  pub get_insert :
      (now : ℕ) (k j : Uuid) (v : V) (m : M)
      → get (insert now k v m) j ≡ (if nat_beq k j then some v else get m j)
  pub deadline_insert :
      (now : ℕ) (k j : Uuid) (v : V) (m : M)
      → deadline (insert now k v m) j ≡ (if nat_beq k j then some (now + timeout) else deadline m j)
  pub get_set :
      (k j : Uuid) (v : V) (m : M)
      → is_some (get m k) ≡ true
      → get (set k v m) j ≡ (if nat_beq k j then some v else get m j)
  pub deadline_set : (k j : Uuid) (v : V) (m : M) → deadline (set k v m) j ≡ deadline m j
  pub get_remove :
      (k j : Uuid) (m : M) → get (remove k m) j ≡ (if nat_beq k j then none else get m j)
  pub get_update_timeout :
      (now : ℕ) (k : Uuid) (t : ℕ) (j : Uuid) (m : M) → get (update_timeout now k t m) j ≡ get m j
  pub deadline_update_timeout :
      (now : ℕ) (k : Uuid) (t : ℕ) (j : Uuid) (m : M)
      → is_some (get m k) ≡ true
      → deadline (update_timeout now k t m) j
        ≡ (if nat_beq k j then some (now + t) else deadline m j)
  pub next_present :
      (now : ℕ) (k : Uuid) (v : V) (m m' : M) → next now m ≡ some (k, v, m') → get m k ≡ some v
  pub next_due :
      (now : ℕ) (k : Uuid) (v : V) (m m' : M)
      → next now m ≡ some (k, v, m')
      → (d : ℕ) × (deadline m k ≡ some d) × (d ≤ now)
  pub next_removes :
      (now : ℕ) (k : Uuid) (v : V) (m m' : M)
      → next now m ≡ some (k, v, m')
      → (j : Uuid) → get m' j ≡ (if nat_beq k j then none else get m j)

-- The set of the same crate; `take` is its `remove`, which says whether the element was there.
pub record DelaySet (timeout : ℕ) : Type 1 where
  pub S : Type 0
  pub new : S
  pub contains : S → Uuid → Bool
  pub insert : ℕ → Uuid → S → S
  pub take : Uuid → S → Bool × S
  pub next : ℕ → S → Option (Uuid × S)
  pub contains_insert :
      (now : ℕ) (k j : Uuid) (s : S)
      → contains (insert now k s) j ≡ (if nat_beq k j then true else contains s j)
  pub next_removes :
      (now : ℕ) (k : Uuid) (s s' : S)
      → next now s ≡ some (k, s')
      → (j : Uuid) → contains s' j ≡ (if nat_beq k j then false else contains s j)
  pub take_found : (k : Uuid) (s : S) → (take k s).0 ≡ contains s k
  pub contains_take :
      (k j : Uuid) (s : S) → contains (take k s).1 j ≡ (if nat_beq k j then false else contains s j)
