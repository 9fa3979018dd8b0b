-- ===== src/Commands/Dkg/Creates.antt =====
-- What a DKG command has written when it ends well.
use mathlib.Core.Path.{subst}
use frost_tools.Prelude.{
  ℕ, ◌≡◌, refl, true, String, some, List, [], Map, get, insert, contains, Outcome, ok, bind,
  bind-eq-ok, ok_or, ok_or-ok, inl, inr, PartialEq, text_eq,
}
use frost_tools.Prelude.Contracts.{Ensures, ensures_then}
use frost_tools.Api.{Bytes, PublicKey}
use frost_tools.Client.Transport.{Transport}
use frost_tools.Cipher.Snow.{Snow}
use frost_tools.Session.Suite.{Suite}
use frost_tools.Comms.Payloads.{Payloads}
use frost_tools.Comms.Dkg as Http
use frost_tools.Config.File.{Config, Group, Participant, CommunicationKey, Platform, read, write}
use frost_tools.Config.Commands.{Stored, write-Stored}
use frost_tools.Inputs.{Console}
use frost_tools.Protocol.Dkg.{Keygen, Generated, with_cleanup}
use frost_tools.Protocol.Dkg.OverHttp.{errors, http_comms, KeyedBy, http_dkg_lem}
use frost_tools.Commands.Machine.{
  Urls, Machine, CommandError, message, from_console, parse_url, address,
}
use frost_tools.Commands.Steps.{
  At, from_console-ok, reading_lem, lift_lem, over_http_lem, writing_lem,
}
use frost_tools.Commands.Dkg.{
  DkgCommand, DkgCodes, with_own, decode_keys, reversed, participants_map, group_with, new_group,
  http_args, generating, with_group, dkg_for_ciphersuite,
}
use frost_tools.Commands.Dkg.Members.{
  Entry, participant_of, reversed-Entry, participants_map-Stands,
}

module _ (T : Transport) (S : Snow) (O : Platform) (I : Console O.Files) (U : Urls I.Failure)
    (C : Suite) (P : Payloads C) (F : Keygen C) (E : DkgCodes C F I.Failure)
    (distinct : (i j : C.Identifier) → O.hex (E.serialize i) ≡ O.hex (E.serialize j) → i ≡ j) where
  open C use {Identifier}

  instance abbrev here_eq : PartialEq Identifier
  here_eq = C.identifier_eq

  -- Each identifier of the key package stands in the group, with a key that the DKG has for it.
  abbrev pub Covers : Generated C F (errors T S C P F) → Group → Type 0
  Covers g group =
      (i : Identifier)
      → contains (E.verifying_shares g.0.1) i ≡ true
      → (p : PublicKey) × Entry T S O I U C P F E g.1 p i
        × (get group.participant (O.hex (E.serialize i))
            ≡ some (participant_of T S O I U C P F E i p))

  -- The written configuration is the one that was read, with the new group under the name of its key;
  -- the group has the keys of a DKG, and the participants of that DKG.
  pub record Created (rounds : ℕ) (args : DkgCommand) (files after : O.Files) : Type 0 where
    pub config : Config
    pub own : CommunicationKey
    pub participants : List PublicKey
    pub url : String
    pub g : Generated C F (errors T S C P F)
    pub group : Group
    pub name : Bytes
    pub configured : read O args.config files ≡ ok config
    pub user : config.communication_key ≡ some own
    pub keyed :
        KeyedBy T S C P F rounds
          (http_args T S O I U C P F E config own (with_own own.pubkey participants) url)
          args.threshold
          g
    pub key : E.key_package g.0.0 ≡ ok group.key_package
    pub public_key : E.public_key_package g.0.1 ≡ ok group.public_key_package
    pub covers : Covers g group
    pub named : E.verifying_key g.0.1 ≡ ok name
    pub saved :
        Stored O (record config { group = insert (O.hex name) group config.group }) files after

  covers_lem :
      (g : Generated C F (errors T S C P F)) (args : DkgCommand) (m : Map String Participant)
      (key public_key : Bytes)
      → participants_map T S O I U C P F E
          (reversed T S O I U C P F E g.1 [])
          (E.verifying_shares g.0.1)
          []
        ≡ ok m
      → Covers g (group_with T S O I U C P F E args m key public_key)
  unfolding get
  covers_lem g args m key public_key e i there =
      let (p, known, at) =
        participants_map-Stands T S O I U C P F E distinct (reversed T S O I U C P F E g.1 [])
          (E.verifying_shares g.0.1) [] m i e there in
      elim (reversed-Entry T S O I U C P F E g.1 [] p i known) [
        | inl entry ↦ (p, entry, at)
        | inr empty ↦ cc
      ]

  new_group-Covers :
      (args : DkgCommand) (g : Generated C F (errors T S C P F)) (group : Group)
      → new_group T S O I U C P F E args g ≡ ok group
      → (E.key_package g.0.0 ≡ ok group.key_package)
        × (E.public_key_package g.0.1 ≡ ok group.public_key_package)
        × Covers g group
  unfolding new_group
  new_group-Covers args g group e =
      let (m, made, e1) =
        bind-eq-ok
          (participants_map T S O I U C P F E (reversed T S O I U C P F E g.1 [])
            (E.verifying_shares g.0.1) [])
          (λ m. bind (from_console T S O I (E.key_package g.0.0)) (λ key.
            bind (from_console T S O I (E.public_key_package g.0.1))
              (λ public_key. ok (group_with T S O I U C P F E args m key public_key))))
          e in
      let (key, written, e2) =
        bind-eq-ok (from_console T S O I (E.key_package g.0.0))
          (λ key.
            bind (from_console T S O I (E.public_key_package g.0.1))
              (λ public_key. ok (group_with T S O I U C P F E args m key public_key)))
          e1 in
      let (public_key, shown, e3) =
        bind-eq-ok (from_console T S O I (E.public_key_package g.0.1))
          (λ public_key.
            let r : Outcome (CommandError T S O I) Group =
              ok (group_with T S O I U C P F E args m key public_key) in
            r)
          e2 in
      let is : group_with T S O I U C P F E args m key public_key ≡ group = cc in
      subst
        (λ x.
          (E.key_package g.0.0 ≡ ok x.key_package)
          × (E.public_key_package g.0.1 ≡ ok x.public_key_package)
          × Covers g x)
        is
        (
          from_console-ok T S O I (E.key_package g.0.0) written,
          from_console-ok T S O I (E.public_key_package g.0.1) shown,
          covers_lem g args m key public_key made,
        )

  -- The DKG leaves the files as they are, and its keys are those of a DKG.
  over_kept :
      {Fact : Type 0} (rounds : ℕ) (args : DkgCommand) (files : O.Files) (config : Config)
      (own : CommunicationKey) (participants : List PublicKey) (url : String)
      → Ensures
          (At T S O I files Fact)
          (generating T S O I U C P F E rounds
            (http_args T S O I U C P F E config own participants url)
            args.threshold)
          (λ g. At T S O I files (
            Fact
            × KeyedBy T S C P F rounds
                (http_args T S O I U C P F E config own participants url)
                args.threshold
                g))
  unfolding generating Http.new
  over_kept rounds args files config own participants url =
      let hargs = http_args T S O I U C P F E config own participants url in
      record {
        ensured = λ m h g n e.
            let ((fact, (w, c, run)), kept) =
              (over_http_lem T S O I files (Http.new T S C P hargs) (
                  with_cleanup C F (errors T S C P F) (http_comms T S C P F rounds hargs)
                    args.threshold)).ensured
                m h g n e in
            (
              (
                fact,
                http_dkg_lem T S C P F rounds hargs args.threshold (Http.new T S C P hargs w) c g
                    refl run,
              ),
              kept,
            );
      }

  creates :
      (rounds : ℕ) (args : DkgCommand) (files : O.Files)
      → Ensures
          (At T S O I files (Unit {0}))
          (dkg_for_ciphersuite T S O I U C P F E rounds args)
          (λ u m. Created rounds args files m.files)
  unfolding dkg_for_ciphersuite
  creates rounds args files =
      ensures_then (reading_lem T S O I files (read O args.config)) (λ config.
        ensures_then (lift_lem T S O I files (parse_url T S O I U args.server_url)) (λ url.
          ensures_then
            (lift_lem T S O I files
              (ok_or config.communication_key (message "user not initialized")))
            (λ own.
              ensures_then
                (lift_lem T S O I files (decode_keys T S O I U C P F E args.participants))
                (λ keys. ensures_then (lift_lem T S O I files (address T S O I U url)) (λ base.
                  ensures_then
                    (over_kept rounds args files config own (with_own own.pubkey keys) base)
                    (λ g.
                      ensures_then (lift_lem T S O I files (new_group T S O I U C P F E args g))
                        (λ group.
                          ensures_then (reading_lem T S O I files (read O args.config)) (λ config'.
                            ensures_then
                              (lift_lem T S O I files
                                (from_console T S O I (E.verifying_key g.0.1)))
                              (λ name. record {
                                ensured = λ m h u n e.
                                    let (
                                      (
                                        (
                                          (
                                            (((((start, read), parsed), own_is), keys_is), to),
                                            keyed,
                                          ),
                                          made,
                                        ),
                                        again,
                                      ),
                                      named,
                                    ) =
                                      h.0 in
                                    let same : config ≡ config' = cc in
                                    let written =
                                      (writing_lem T S O I files (
                                          write O (
                                            with_group T S O I U C P F E (O.hex name) group
                                              config'))).ensured
                                        m h u n e in
                                    let (key, public_key, covers) =
                                      new_group-Covers args g group made in
                                    record {
                                      config = config;
                                      own = own;
                                      participants = keys;
                                      url = base;
                                      g = g;
                                      group = group;
                                      name = name;
                                      configured = read;
                                      user =
                                          ok_or-ok config.communication_key
                                            (message "user not initialized") own_is;
                                      keyed = keyed;
                                      key = key;
                                      public_key = public_key;
                                      covers = covers;
                                      named = from_console-ok T S O I (E.verifying_key g.0.1) named;
                                      saved =
                                          write-Stored O
                                            (record config {
                                              group = insert (O.hex name) group config.group;
                                            })
                                            files n.files (rw same written.1);
                                    };
                              })))))))))

  -- A DKG command that ends well has printed the configuration that it read, with the new group under
  -- the name of its verifying key, and written it to the path of that configuration. The group holds
  -- the keys of a DKG over HTTP, whose participants have agreed if they are more than two, and each identifier of the public key package stands in it with a public key to which that DKG
  -- gives this identifier, if different identifiers have different texts.
  pub dkg_for_ciphersuite_lem :
      (rounds : ℕ) (args : DkgCommand) (m n : Machine T S O I)
      → dkg_for_ciphersuite T S O I U C P F E rounds args m ≡ (ok tt, n)
      → Created rounds args m.files n.files
  dkg_for_ciphersuite_lem rounds args m n e =
      (creates rounds args m.files).ensured m (tt, refl) tt n e
