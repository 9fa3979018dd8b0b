-- ===== src/Protocol/Dkg/OverHttp.antt =====
-- The DKG over its HTTP implementation.
use mathlib.Core.Path.{subst}
use frost_tools.Session.Dkg.Agreement.{Run}
use frost_tools.Comms.Dkg.Ends.{Finished, get_round2_packages_lem}
use frost_tools.Prelude.{
  ℕ, ◌≤◌, ◌%◌, ◌^◌, ◌≡◌, ◌⊎◌, inl, inr, true, false, Bool-cases, refl, some, [], Map, length, ok,
  pure, lift, ◌>>=◌,
}
use frost_tools.Prelude.Contracts.{Ensures, ensures_then, ensures_pure, ensures_lift, ensures_at}
use frost_tools.Client.Transport.{Transport}
use frost_tools.Cipher.Snow.{Snow}
use frost_tools.Session.Suite.{Suite}
use frost_tools.Session.Dkg.{Pubkeys, Packages, waiting_for_round1_packages}
use frost_tools.Comms.Core.{CommsError, message, frost_error}
use frost_tools.Comms.Payloads.{Payloads}
use frost_tools.Comms.Dkg.{
  Args, HttpComms, get_identifier_and_max_signers, get_round1_packages, get_round2_packages,
  get_pubkey_identifier_map, cleanup_on_error,
}
use frost_tools.Comms.Dkg.Enters.{Introduced, get_identifier_and_max_signers_lem}
use frost_tools.Comms.Dkg.Agrees.{Agreed, get_round1_packages_lem}
use frost_tools.Protocol.Frost.{Errors, from_frost, from_frost-ok}
use frost_tools.Protocol.Cleanup.{cleaned-ok}
use frost_tools.Protocol.Dkg.{Keygen, Comms, Generated, into_even_y, doit, with_cleanup}

module _ (T : Transport) (S : Snow) (C : Suite) (P : Payloads C) (F : Keygen C) where
  open C use {Identifier, Round1Package, Round2Package}
  open F use {SecretPackage1, SecretPackage2, KeyPackage, PublicKeyPackage}

  abbrev pub errors : Errors F.FrostError
  errors = record { Error = CommsError T S; message = message; frost_error = λ e. frost_error }

  -- `impl Comms for HTTPComms`
  abbrev pub http_comms : ℕ → Args T S C P → Comms C F errors
  http_comms rounds args = record {
    Self = HttpComms T S C P;
    get_identifier_and_max_signers = get_identifier_and_max_signers T S C P args;
    get_round1_packages = get_round1_packages T S C P rounds args;
    get_round2_packages = get_round2_packages T S C P rounds args;
    get_pubkey_identifier_map = get_pubkey_identifier_map T S C P;
    cleanup_on_error = cleanup_on_error T S C P;
  }

  -- The keys of redpallas are converted by whether the Y coordinate is even; others stay as they are.
  abbrev pub Converted : KeyPackage × PublicKeyPackage → KeyPackage × PublicKeyPackage → Type 0
  Converted keys done =
      ((F.is_redpallas ≡ false) × (done ≡ keys))
      ⊎ ((F.is_redpallas ≡ true)
          × (done.0 ≡ F.key_into_even_y (F.has_even_y keys.1) keys.0)
          × (done.1 ≡ F.package_into_even_y (F.has_even_y keys.1) keys.1))

  into_even_y-Converted :
      (keys : KeyPackage × PublicKeyPackage) → Converted keys (into_even_y C F errors keys)
  unfolding into_even_y
  into_even_y-Converted keys = elim (Bool-cases F.is_redpallas) [
    | inr e ↦ inl (e, rw (e, into_even_y) refl)
    | inl e ↦ inr (e, rw (e, into_even_y) refl, rw (e, into_even_y) refl)
  ]

  module _ (rounds : ℕ) (args : Args T S C P) (min_signers : ℕ) where
    -- The first-round packages that a participant goes on with: it has entered the session of the
    -- participants `pubkeys` as `who`, made its own package, and agreed with them on the others.
    pub record Settled (who : Identifier × ℕ) (first : SecretPackage1 × Round1Package)
        (r1 : Packages C) : Type 0 where
      pub pubkeys : Pubkeys C
      pub after : HttpComms T S C P
      pub part1 : F.part1 who.0 who.1 min_signers ≡ ok first
      pub max_signers : who.1 ≡ length pubkeys % 2 ^ 16
      pub not_alone : 2 ≤ length pubkeys
      pub agreed : Agreed T S C P who.0 pubkeys r1 after

    -- The keys come from the three parts, of which the last two are given the same packages.
    pub record KeyedBy (g : Generated C F errors) : Type 0 where
      pub who : Identifier × ℕ
      pub first : SecretPackage1 × Round1Package
      pub r1 : Packages C
      pub second : SecretPackage2 × Map Identifier Round2Package
      pub r2 : Map Identifier Round2Package
      pub keys : KeyPackage × PublicKeyPackage
      pub settled : Settled who first r1
      pub part2 : F.part2 first.0 r1 ≡ ok second
      pub part3 : F.part3 second.0 r1 r2 ≡ ok keys
      pub finished : Finished T S C P who.0 settled.pubkeys r2
      pub converted : Converted keys g.0
      pub known : g.1 ≡ settled.pubkeys

    settle :
        (who : Identifier × ℕ) (first : SecretPackage1 × Round1Package)
        → Ensures
            (λ (c : HttpComms T S C P).
              Introduced T S C P who c × (F.part1 who.0 who.1 min_signers ≡ ok first))
            (get_round1_packages T S C P rounds args first.1)
            (λ r1 c. (x : Settled who first r1) × (x.after ≡ c))
    unfolding Introduced
    settle who first = record {
      ensured = λ c h r1 d e.
          let ((pubkeys, state, mine, keys, max, two), made) = h in
          (
            record {
              pubkeys = pubkeys;
              after = d;
              part1 = made;
              max_signers = max;
              not_alone = two;
              agreed =
                  get_round1_packages_lem T S C P who.0 pubkeys rounds args first.1 c d r1 state
                    mine e;
            },
            refl,
          );
    }

    -- After the second part, and after the second round.
    abbrev Going :
        Identifier × ℕ
        → SecretPackage1 × Round1Package
        → Packages C
        → SecretPackage2 × Map Identifier Round2Package
        → HttpComms T S C P
        → Type 0
    Going who first r1 second c =
        ((x : Settled who first r1) × (x.after ≡ c)) × (F.part2 first.0 r1 ≡ ok second)

    abbrev Ended :
        Identifier × ℕ
        → SecretPackage1 × Round1Package
        → Packages C
        → SecretPackage2 × Map Identifier Round2Package
        → Map Identifier Round2Package
        → HttpComms T S C P
        → Type 0
    Ended who first r1 second r2 c =
        (x : Settled who first r1) × (F.part2 first.0 r1 ≡ ok second)
        × Finished T S C P who.0 x.pubkeys r2
        × (get_pubkey_identifier_map T S C P c ≡ ok x.pubkeys)

    second_round :
        (who : Identifier × ℕ) (first : SecretPackage1 × Round1Package) (r1 : Packages C)
        (second : SecretPackage2 × Map Identifier Round2Package)
        → Ensures
            (Going who first r1 second)
            (get_round2_packages T S C P rounds args second.1)
            (λ r2 c. Ended who first r1 second r2 c)
    unfolding Agreed
    second_round who first r1 second = record {
      ensured = λ c h r2 d e.
          let ((x, after), made) = h in
          let (ms, q2, run, arrived, count, state, mine, all) = x.agreed in
          let run' =
            subst (λ (y : HttpComms T S C P). Run C who.0 x.pubkeys ms y.state) after run in
          let mine' = subst (λ (y : HttpComms T S C P). y.identifier ≡ some who.0) after mine in
          let (is, finished, map_is) =
            get_round2_packages_lem T S C P who.0 x.pubkeys ms rounds args second.1 r2 c d run'
              arrived mine' e in
          (x, made, finished, map_is);
    }

    ending :
        (who : Identifier × ℕ) (first : SecretPackage1 × Round1Package) (r1 : Packages C)
        (second : SecretPackage2 × Map Identifier Round2Package) (r2 : Map Identifier Round2Package)
        → Ensures
            (Ended who first r1 second r2)
            (lift (from_frost errors (F.part3 second.0 r1 r2)) >>= λ keys.
              (λ s. (get_pubkey_identifier_map T S C P s, s)) >>= λ pubkey_map.
              pure (into_even_y C F errors keys, pubkey_map))
            (λ g c. KeyedBy g)
    ending who first r1 second r2 =
        ensures_then
          (ensures_lift
            {Q = λ keys c. Ended who first r1 second r2 c × (F.part3 second.0 r1 r2 ≡ ok keys)}
            (from_frost errors (F.part3 second.0 r1 r2))
            (λ c h keys e. (h, from_frost-ok errors (F.part3 second.0 r1 r2) e)))
          (λ keys.
            ensures_then
              {Q = λ m c.
                ((x : Settled who first r1) × (F.part2 first.0 r1 ≡ ok second)
                  × Finished T S C P who.0 x.pubkeys r2
                  × (m ≡ x.pubkeys))
                × (F.part3 second.0 r1 r2 ≡ ok keys)}
              (ensures_at (get_pubkey_identifier_map T S C P) (λ c. c) (λ c. refl)
                (λ c h m e.
                  let (x, made, finished, map_is) = h.0 in
                  let same : m ≡ x.pubkeys = cc in ((x, made, finished, same), h.1)))
              (λ m.
                ensures_pure (into_even_y C F errors keys, m)
                  (λ c h. record {
                    who = who;
                    first = first;
                    r1 = r1;
                    second = second;
                    r2 = r2;
                    keys = keys;
                    settled = h.0.0;
                    part2 = h.0.1;
                    part3 = h.1;
                    converted = into_even_y-Converted keys;
                    known = h.0.3;
                    finished = h.0.2;
                  })))

    generates :
        Ensures
          (λ (c : HttpComms T S C P). c.state ≡ waiting_for_round1_packages [] [])
          (doit C F errors (http_comms rounds args) min_signers)
          (λ g c. KeyedBy g)
    unfolding doit
    generates =
        ensures_then {Q = Introduced T S C P}
          (record {
            ensured = λ c h who d e. get_identifier_and_max_signers_lem T S C P args c d who h e;
          })
          (λ who.
            ensures_then
              (ensures_lift
                {Q = λ first c.
                  Introduced T S C P who c × (F.part1 who.0 who.1 min_signers ≡ ok first)}
                (from_frost errors (F.part1 who.0 who.1 min_signers))
                (λ c h first e. (h, from_frost-ok errors (F.part1 who.0 who.1 min_signers) e)))
              (λ first. ensures_then (settle who first) (λ r1.
                ensures_then
                  (ensures_lift {Q = Going who first r1} (from_frost errors (F.part2 first.0 r1))
                    (λ c h second e. (h, from_frost-ok errors (F.part2 first.0 r1) e)))
                  (λ second.
                    ensures_then (second_round who first r1 second)
                      (λ r2. ending who first r1 second r2)))))

    -- A DKG over HTTP that returns keys has made them from first-round packages, of as many
    -- participants as there are others, on which, with more than two participants, all have
    -- agreed: the second and the third part are given the same ones, and each came from its own
    -- participant and was echoed by every other one, in messages that the server returned to
    -- `receive` and that snow opened; the second-round packages of the third part are what the
    -- session has made of such messages. The participants' keys that it returns are those that it has
    -- agreed with.
    pub http_dkg_lem :
        (c d : HttpComms T S C P) (g : Generated C F errors)
        → c.state ≡ waiting_for_round1_packages [] []
        → with_cleanup C F errors (http_comms rounds args) min_signers c ≡ (ok g, d)
        → KeyedBy g
    unfolding with_cleanup
    http_dkg_lem c d g fresh e = generates.ensured c fresh g d (
        cleaned-ok (cleanup_on_error T S C P)
          (doit C F errors (http_comms rounds args) min_signers c) g d e)
