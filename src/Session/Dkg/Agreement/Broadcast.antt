-- ===== src/Session/Dkg/Agreement/Broadcast.antt =====
-- The echo broadcast round keeps what is known, and the round ends in agreement.
use frost_tools.Prelude.{
  ◌≡◌, refl, ◌&&◌, Option, none, some, List, ◌∷◌, arith, ◌==◌, Map, get, insert, contains_key, keys,
  set_eq, is_some, eq_iff, Option-cases, Bool-cases, inl, inr, Outcome, ok, err, Outcome-cases,
  or_default,
}
use frost_tools.Api.{public_key_eq, Msg}
use frost_tools.Session.Suite.{Suite, SessionError}
use frost_tools.Session.Dkg.{
  identifier_eq, package_eq, Pubkeys, Packages, Broadcasts, State,
  waiting_for_round1_packages_broadcast, waiting_for_round2_packages, broadcast_in,
  handle_round1_package_broadcast, handle_round2_package, check_broadcast, take_broadcast,
  record_echo, is_complete,
}
use frost_tools.Session.Dkg.Echo.{echo, echo-record_echo, is_complete-echo}
use frost_tools.Session.Dkg.Agreement.{Echoed, AllSent, Agrees, Holds, Holds-more}

module _ (C : Suite) (me : C.Identifier) (pubkeys : Pubkeys C) where
  open C use {Identifier, Round1Package, Round2Package}

  -- A broadcast that passes the checks repeats the original package.
  pub check_broadcast-get :
      (r1 : Packages C) (j o : Identifier) (pkg : Round1Package) (u : Unit {0})
      → check_broadcast C pubkeys r1 me j o pkg ≡ ok u
      → get ⦃e = identifier_eq C⦄ r1 o ≡ some pkg
  unfolding check_broadcast
  check_broadcast-get r1 j o pkg u h = elim (Option-cases (get ⦃e = identifier_eq C⦄ r1 o)) [
    | inl e ↦ absurd (ground arith)
    | inr (q, e) ↦ ground (arith, eq_iff ⦃e = package_eq C⦄ q pkg)
  ]

  module _ (m : Msg) (ms : List Msg) (r1 : Packages C) where
    take_broadcast-Holds :
        (bs : Broadcasts C) (j o : Identifier) (pkg : Round1Package)
        → get pubkeys m.sender ≡ some j
        → C.read_broadcast m.msg ≡ some (o, pkg)
        → get ⦃e = identifier_eq C⦄ r1 o ≡ some pkg
        → Holds C me pubkeys ms (waiting_for_round1_packages_broadcast pubkeys r1 bs)
        → Holds C me pubkeys (m ∷ ms) (take_broadcast C pubkeys r1 bs j o pkg).1
    unfolding take_broadcast Holds AllSent Agrees
    take_broadcast-Holds bs j o pkg known read original h =
        enter (get ⦃e = identifier_eq C⦄ (or_default (get ⦃e = identifier_eq C⦄ bs o)) j)
      where
        bs' : Broadcasts C
        bs' = record_echo C o j pkg bs

        table :
            (a b : Identifier) (q : Round1Package)
            → echo C bs' a b ≡ some q
            → Echoed C me pubkeys (m ∷ ms) a b q × (get ⦃e = identifier_eq C⦄ r1 a ≡ some q)
        table a b q g =
            elim (Bool-cases (◌==◌ ⦃e = identifier_eq C⦄ o a && ◌==◌ ⦃e = identifier_eq C⦄ j b)) [
              | inl same ↦
                  let same_o : o ≡ a = ground (arith, eq_iff ⦃e = identifier_eq C⦄ o a) in
                  let same_j : j ≡ b = ground (arith, eq_iff ⦃e = identifier_eq C⦄ j b) in
                  let same_q : pkg ≡ q = ground (arith, echo-record_echo C o j pkg bs a b) in
                  (inl (cc, cc), cc)
              | inr other ↦
                  let (x, y) = h.2 a b q (ground (arith, echo-record_echo C o j pkg bs a b)) in
                  (inr x, y)
            ]

        sent : AllSent C me pubkeys (m ∷ ms) r1
        sent id q g = inr (h.1 id q g)

        waiting : Holds C me pubkeys (m ∷ ms) (waiting_for_round1_packages_broadcast pubkeys r1 bs')
        waiting = (refl, sent, table, h.3)

        enter :
            (x : Option Round1Package)
            → Holds C me pubkeys
                (m ∷ ms)
                (elim x as (λ _. Outcome SessionError (Unit {0}) × State C) [
                  | some old ↦ (
                    err SessionError.duplicated_broadcast,
                    waiting_for_round1_packages_broadcast pubkeys r1 bs',
                  )
                  | none ↦ (ok tt, broadcast_in C pubkeys r1 bs')
                ]).1
        enter (some old) = waiting
        enter none = elim (Bool-cases (is_complete C r1 bs')) [
          | inr e ↦ rw e waiting
          | inl e ↦ rw e (
            refl,
            sent,
            λ big a b ha hb ne.
                let (q, ec, er) = is_complete-echo C r1 bs' a b e ha hb ne in
                (q, er, (table a b q ec).0),
            h.3,
          )
        ]

    pub handle_broadcast-Holds :
        (bs : Broadcasts C) (o : Identifier) (pkg : Round1Package)
        → C.read_broadcast m.msg ≡ some (o, pkg)
        → Holds C me pubkeys ms (waiting_for_round1_packages_broadcast pubkeys r1 bs)
        → Holds C me pubkeys
            (m ∷ ms)
            (handle_round1_package_broadcast C m.sender me o pkg
              (waiting_for_round1_packages_broadcast pubkeys r1 bs)).1
    unfolding handle_round1_package_broadcast
    handle_broadcast-Holds bs o pkg read h =
        let same =
          Holds-more C me pubkeys m ms (waiting_for_round1_packages_broadcast pubkeys r1 bs) h in
        elim (Option-cases (get pubkeys m.sender)) [
          | inl e ↦ rw (e, handle_round1_package_broadcast) same
          | inr (j, e) ↦ elim (Outcome-cases (check_broadcast C pubkeys r1 me j o pkg)) [
            | inl (u, f) ↦
                rw (e, f, handle_round1_package_broadcast)
                  (take_broadcast-Holds bs j o pkg e read (check_broadcast-get r1 j o pkg u f) h)
            | inr (inl (x, f)) ↦ rw (e, f, handle_round1_package_broadcast) same
            | inr (inr f) ↦ rw (e, f, handle_round1_package_broadcast) same
          ]
        ]

    pub handle_round2-Holds :
        (pkg : Round2Package) (r2 : Map Identifier Round2Package)
        → Holds C me pubkeys ms (waiting_for_round2_packages pubkeys r1 r2)
        → Holds C me pubkeys
            (m ∷ ms)
            (handle_round2_package C m.sender pkg (waiting_for_round2_packages pubkeys r1 r2)).1
    unfolding handle_round2_package contains_key
    handle_round2-Holds pkg r2 h =
        let same = Holds-more C me pubkeys m ms (waiting_for_round2_packages pubkeys r1 r2) h in
        elim (Option-cases (get pubkeys m.sender)) [
          | inl e ↦ rw (e, handle_round2_package) same
          | inr (id, e) ↦ elim (Bool-cases (is_some (get ⦃e = identifier_eq C⦄ r1 id))) [
            | inr f ↦ rw (e, f, handle_round2_package) same
            | inl f ↦
                rw (e, f, handle_round2_package)
                  (elim (Bool-cases (
                    set_eq ⦃e = identifier_eq C⦄ (keys (insert ⦃e = identifier_eq C⦄ id pkg r2))
                      (keys r1))) [
                        | inl done ↦ rw done (unfold Holds in refl)
                        | inr more ↦ rw more (unfold Holds in (same.0, same.1, same.2, same.3))
                      ])
          ]
        ]
