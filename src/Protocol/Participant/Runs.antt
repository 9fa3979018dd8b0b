-- ===== src/Protocol/Participant/Runs.antt =====
-- The calls of a participant's run that ends well.
use mathlib.Core.Path.{subst}
use frost_tools.Prelude.{
  ℕ, zero, suc, ◌≡◌, refl, ap, sym, ◌∙◌, Bool, List, map, length, ok, nat_eq, ◌+◌, EachAt,
  EachAt-nil, EachAt-cons, EachAt-map, arith,
}
use frost_tools.Prelude.Contracts.{Ensures, ensures_then, ensures_lift, lift_keep}
use frost_tools.Session.Suite.{Suite}
use frost_tools.Comms.Payloads.{Payloads}
use frost_tools.Protocol.Frost.{Frost, Errors}
use frost_tools.Protocol.Participant.Shares.{Shared, generate_signature_lem}
use frost_tools.Protocol.Participant.{
  Comms, SigningArgs, generate_signature, commit_all, participant, rerandomized,
}

module _ (C : Suite) (P : Payloads C) (F : Frost C P) (X : Errors F.FrostError) where
  open C use {Identifier, SigningCommitments, SignatureShare}
  open P use {SigningPackage, Randomizer}
  open F use {KeyPackage, SigningNonces}
  open X use {Error}

  length_of : (key : KeyPackage) (i n : ℕ) → length (commit_all C P F X key i n) ≡ n
  unfolding commit_all
  length_of key i zero = refl
  length_of key i (suc n) = ap suc (length_of key (suc i) n)

  length-commit_all :
      (key : KeyPackage) (i n : ℕ) → length (map (λ d. d.0) (commit_all C P F X key i n)) ≡ n
  unfolding commit_all
  length-commit_all key i zero = refl
  length-commit_all key i (suc n) = ap suc (length-commit_all key (suc i) n)

  -- The draws of a run, each by its own index: nonces and their commitments.
  abbrev pub Draws : KeyPackage → ℕ → List (SigningNonces × SigningCommitments) → Type 0
  Draws key n drawn = (length drawn ≡ n) × EachAt (λ j d. d ≡ F.commit key j) drawn

  commit_all-EachAt :
      (key : KeyPackage) (i n : ℕ)
      → EachAt (λ j d. d ≡ F.commit key (i + j)) (commit_all C P F X key i n)
  unfolding commit_all
  commit_all-EachAt key i zero = EachAt-nil (λ j d. d ≡ F.commit key (i + j))
  commit_all-EachAt key i (suc n) =
      EachAt-cons (λ j d. d ≡ F.commit key (i + j)) (F.commit key i)
        (commit_all C P F X key (suc i) n) (ap (F.commit key) (omega arith))
        (EachAt-map (commit_all C P F X key (suc i) n)
          (λ j d h. h ∙ ap (F.commit key) (omega arith)) (commit_all-EachAt key (suc i) n))

  commit_all-Draws : (key : KeyPackage) (n : ℕ) → Draws key n (commit_all C P F X key 0 n)
  commit_all-Draws key n = (
    length_of key 0 n,
    EachAt-map (commit_all C P F X key 0 n) (λ j d h. h ∙ ap (F.commit key) (omega arith))
        (commit_all-EachAt key 0 n),
  )

  -- The calls of a run that ends well.
  module _ (comms : Comms C P F X) (key : KeyPackage) where
    pub record Ran (s t : comms.Self) : Type 0 where
      pub message_count : ℕ
      pub kind : Bool
      pub config : SigningArgs C P F X
      pub shares : List SignatureShare
      pub drawn : List (SigningNonces × SigningCommitments)
      pub draws : Draws key message_count drawn
      pub counted : comms.Self
      pub given : comms.Self
      pub confirmed : comms.Self
      pub count : comms.get_message_count s ≡ (ok message_count, counted)
      pub committed :
          comms.get_signing_package (map (λ d. d.1) drawn) (F.identifier key) kind counted
          ≡ (ok config, given)
      pub agreed : comms.confirm_message config given ≡ (ok tt, confirmed)
      pub sent : comms.send_signature_share (F.identifier key) shares confirmed ≡ (ok tt, t)
      pub as_many : length shares ≡ message_count
      pub signed : Shared C P F X config key (map (λ d. d.0) drawn) shares

    abbrev Counted : comms.Self → ℕ → comms.Self → Type 0
    Counted s n u = comms.get_message_count s ≡ (ok n, u)

    abbrev Given : comms.Self → ℕ → Bool → SigningArgs C P F X → comms.Self → Type 0
    Given s n kind config v =
        (u : comms.Self) × Counted s n u
        × (comms.get_signing_package (map (λ d. d.1) (commit_all C P F X key 0 n))
              (F.identifier key) kind u
            ≡ (ok config, v))

    ran :
        (s t : comms.Self) (n : ℕ) (kind : Bool) (config : SigningArgs C P F X)
        (shares : List SignatureShare) (u v w : comms.Self)
        → Counted s n u
        → comms.get_signing_package
            (map (λ d. d.1) (commit_all C P F X key 0 n))
            (F.identifier key)
            kind
            u
          ≡ (ok config, v)
        → comms.confirm_message config v ≡ (ok tt, w)
        → comms.send_signature_share (F.identifier key) shares w ≡ (ok tt, t)
        → Shared C P F X config key (map (λ d. d.0) (commit_all C P F X key 0 n)) shares
        → Ran s t
    unfolding Shared
    ran s t n kind config shares u v w counted committed agreed sent signed = record {
      message_count = n;
      kind = kind;
      config = config;
      shares = shares;
      drawn = commit_all C P F X key 0 n;
      draws = commit_all-Draws key n;
      counted = u;
      given = v;
      confirmed = w;
      count = counted;
      committed = committed;
      agreed = agreed;
      sent = sent;
      as_many = signed.2 ∙ sym signed.0 ∙ length-commit_all key 0 n;
      signed = signed;
    }

    runs : (s : comms.Self) → Ensures (λ u. u ≡ s) (participant C P F X comms key) (λ x t. Ran s t)
    unfolding participant
    runs s =
        ensures_then {Q = Counted s}
          (record { ensured = λ u same n v e. subst (λ u. Counted u n v) same e })
          (λ n. ensures_then (lift_keep (rerandomized C P F X)) (λ kind.
            ensures_then {Q = Given s n kind} (record { ensured = λ u h config v e. (u, h, e) })
              (λ config.
                ensures_then
                  {Q = λ x w.
                    (v : comms.Self) × Given s n kind config v
                    × (comms.confirm_message config v ≡ (ok tt, w))}
                  (record { ensured = λ v h x w e. (v, h, e) })
                  (λ x.
                    ensures_then
                      {Q = λ shares w.
                        ((v : comms.Self) × Given s n kind config v
                          × (comms.confirm_message config v ≡ (ok tt, w)))
                        × Shared C P F X config key (map (λ d. d.0) (commit_all C P F X key 0 n))
                            shares}
                      (ensures_lift
                        (generate_signature C P F X config key
                          (map (λ d. d.0) (commit_all C P F X key 0 n)))
                        (λ w h shares e. (
                          h,
                          generate_signature_lem C P F X config key
                              (map (λ d. d.0) (commit_all C P F X key 0 n)) shares e,
                        )))
                      (λ shares. record {
                        ensured = λ w h y t e.
                            let ((v, (u, counted, committed), agreed), signed) = h in
                            ran s t n kind config shares u v w counted committed agreed e signed;
                      })))))

    -- A participant that ends well has drawn nonces and commitments once for each message of the
    -- session, each by a draw of its own, and has sent these commitments. It has sent as many signature
    -- shares, each for its own package and with the nonces of the draw of the same index.
    pub participant_lem :
        (s t : comms.Self) → participant C P F X comms key s ≡ (ok tt, t) → Ran s t
    participant_lem s t e = (runs s).ensured s refl tt t e
