-- ===== src/Frostd/Examples/Store.antt =====
-- A delay map as a record of functions, with the keys ever inserted.
use frost_tools.Prelude.{
  ℕ, ◌+◌, ◌≤◌, ◌≡◌, ◌≢◌, refl, Bool, true, false, Option, none, some, List, [], ◌∷◌, arith, nat_beq,
  leb, if◌then◌else◌, Option-cases, inl, inr,
}
use frost_tools.Api.{Uuid, Bytes, PublicKey}
use frost_tools.Frostd.Delay.{DelayMap, DelaySet}
use frost_tools.Frostd.State.{
  Env, Session, session_timeout, challenge_timeout, access_token_timeout,
}

pub record Store (V : Type 0) : Type 0 where
  pub keys : List Uuid
  pub at : Uuid → Option V
  pub due : Uuid → Option ℕ

module _ {V : Type 0} where
  abbrev drop : Uuid → Store V → Store V
  drop k m = record m { at = λ j. if nat_beq k j then none else m.at j }

  -- The value of a key that is due.
  abbrev ripe : ℕ → Option V → Option ℕ → Option V
  ripe now (some v) (some d) = if leb d now then some v else none
  ripe now _ _ = none

  unfoldable pub scan : ℕ → Store V → List Uuid → Option (Uuid × V × Store V)
  scan now m [] = none
  scan now m (k ∷ ks) =
      let rest = scan now m ks in
      elim (ripe now (m.at k) (m.due k)) [ none ↦ rest | some v ↦ some (k, v, drop k m) ]

  ripe-some :
      (now : ℕ) (o : Option V) (d : Option ℕ) (v : V)
      → ripe now o d ≡ some v
      → (o ≡ some v) × ((t : ℕ) × (d ≡ some t) × (t ≤ now))
  ripe-some now none none v h = cc
  ripe-some now none (some d) v h = cc
  ripe-some now (some w) none v h = cc
  ripe-some now (some w) (some d) v h = (ground arith, (d, refl, ground arith))

  pub scan-some :
      (now : ℕ) (m : Store V) (ks : List Uuid) (k : Uuid) (v : V) (m' : Store V)
      → scan now m ks ≡ some (k, v, m')
      → (m.at k ≡ some v) × ((t : ℕ) × (m.due k ≡ some t) × (t ≤ now)) × (m' ≡ drop k m)
  unfolding scan
  scan-some now m [] k v m' h = cc
  scan-some now m (j ∷ ks) k v m' h = elim (Option-cases (ripe now (m.at j) (m.due j))) [
    | inl e ↦ scan-some now m ks k v m' (rw (e, scan) at h)
    | inr (w, e) ↦
        let h' : ◌≡◌ {A = Option (Uuid × V × Store V)} (some (j, w, drop j m)) (some (k, v, m')) =
          rw (e, scan) at h in
        let same_k : j ≡ k = cc in
        let same_v : w ≡ v = cc in
        let same_m : drop j m ≡ m' = cc in
        let (at, (t, due, le)) = ripe-some now (m.at j) (m.due j) w e in (cc, (t, cc, le), cc)
  ]

module _ (timeout : ℕ) (V : Type 0) where
  abbrev insert : ℕ → Uuid → V → Store V → Store V
  insert now k v m = record {
    keys = k ∷ m.keys;
    at = λ j. if nat_beq k j then some v else m.at j;
    due = λ j. if nat_beq k j then some (now + timeout) else m.due j;
  }

  abbrev set : Uuid → V → Store V → Store V
  set k v m = record m { at = λ j. if nat_beq k j then some v else m.at j }

  abbrev update_timeout : ℕ → Uuid → ℕ → Store V → Store V
  update_timeout now k t m = record m { due = λ j. if nat_beq k j then some (now + t) else m.due j }

  abbrev pub store : DelayMap timeout V
  store = record {
    M = Store V;
    new = record { keys = []; at = λ k. none; due = λ k. none };
    get = λ m. m.at;
    deadline = λ m. m.due;
    insert = insert;
    set = set;
    remove = drop;
    update_timeout = update_timeout;
    next = λ now m. scan now m m.keys;
    get_new = λ k. refl;
    get_insert = λ now k j v m. refl;
    deadline_insert = λ now k j v m. refl;
    get_set = λ k j v m h. refl;
    deadline_set = λ k j v m. refl;
    get_remove = λ k j m. refl;
    get_update_timeout = λ now k t j m. refl;
    deadline_update_timeout = λ now k t j m h. refl;
    next_present = λ now k v m m' h. (scan-some now m m.keys k v m' h).0;
    next_due = λ now k v m m' h. (scan-some now m m.keys k v m' h).1;
    next_removes = λ now k v m m' h j. rw (scan-some now m m.keys k v m' h).2 refl;
  }

pub never : {A : Type 0} {a : A} → ◌≢◌ {A = Option A} none (some a)
never h = cc

-- A set of challenges that never reports a timeout.
abbrev pub uuid_set : DelaySet challenge_timeout
uuid_set = record {
  S = Uuid → Bool;
  new = λ k. false;
  contains = λ s. s;
  insert = λ now k s j. if nat_beq k j then true else s j;
  take = λ k s. (s k, λ j. if nat_beq k j then false else s j);
  next = λ now s. none;
  next_removes = λ now k s s' h. absurd (never h);
  contains_insert = λ now k j s. refl;
  take_found = λ k s. refl;
  contains_take = λ k j s. refl;
}

-- A server on which every signature verifies that begins with a 1.
abbrev starts_with_one : Bytes → Bool
starts_with_one [] = false
starts_with_one (b ∷ bs) = nat_beq b 1

abbrev pub server : Env
server = record {
  sessions = store session_timeout Session;
  challenges = uuid_set;
  access_tokens = store access_token_timeout PublicKey;
  verify = λ key challenge signature. starts_with_one signature;
}
