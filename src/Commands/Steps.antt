-- ===== src/Commands/Steps.antt =====
-- What the steps of a command establish, from files that stay as they are.
use frost_tools.Prelude.{◌≡◌, refl, sym, ◌∙◌, ap, Outcome, ok, err, panic, Method, lift}
use frost_tools.Prelude.Contracts.{Ensures, ensures_at}
use frost_tools.Client.Transport.{Transport}
use frost_tools.Cipher.Snow.{Snow}
use frost_tools.Comms.Core.{Comms, CommsError}
use frost_tools.Config.File.{Platform, ConfigError}
use frost_tools.Inputs.{Console}
use frost_tools.Commands.Machine.{
  Machine, CommandError, from_config, from_console, from_comms, reading, at_terminal, over_http,
  writing,
}

pub with_second : {X Y : Type 0} {x : X} (p : X × Y) → p.0 ≡ x → p ≡ (x, p.1)
with_second {X} {Y} (a, b) e = ap (λ (r : X). let q : X × Y = (r, b) in q) e

module _ (T : Transport) (S : Snow) (O : Platform) (I : Console O.Files) where
  pub from_config-ok :
      {A : Type 0} {a : A} (r : Outcome ConfigError A) → from_config T S O I r ≡ ok a → r ≡ ok a
  from_config-ok (ok b) e = let same : b ≡ _ = cc in ap ok same
  from_config-ok (err x) e = cc
  from_config-ok panic e = cc

  pub from_console-ok :
      {A : Type 0} {a : A} (r : Outcome I.Failure A) → from_console T S O I r ≡ ok a → r ≡ ok a
  from_console-ok (ok b) e = let same : b ≡ _ = cc in ap ok same
  from_console-ok (err x) e = cc
  from_console-ok panic e = cc

  pub from_comms-ok :
      {A : Type 0} {a : A} (r : Outcome (CommsError T S) A) → from_comms T S O I r ≡ ok a → r ≡ ok a
  from_comms-ok (ok b) e = let same : b ≡ _ = cc in ap ok same
  from_comms-ok (err x) e = cc
  from_comms-ok panic e = cc

  module _ (files : O.Files) where
    -- `Fact` is established, and the files are those of the start.
    abbrev pub At : Type 0 → Machine T S O I → Type 0
    At Fact m = Fact × (m.files ≡ files)

    pub reading_lem :
        {Fact A : Type 0} (f : O.Files → Outcome ConfigError A)
        → Ensures (At Fact) (reading T S O I f) (λ a. At (Fact × (f files ≡ ok a)))
    unfolding reading
    reading_lem f =
        ensures_at (λ m. from_config T S O I (f m.files)) (λ m. m) (λ m. refl)
          (λ m h a e. let read = from_config-ok (f m.files) e in ((h.0, rw h.1 at read), h.1))

    pub lift_lem :
        {Fact A : Type 0} (r : Outcome (CommandError T S O I) A)
        → Ensures (At Fact) (lift r) (λ a. At (Fact × (r ≡ ok a)))
    lift_lem r = ensures_at (λ m. r) (λ m. m) (λ m. refl) (λ m h a e. ((h.0, e), h.1))

    pub at_terminal_lem :
        {Fact A : Type 0} {R : A → Type 0} (f : O.Files → Method I.Failure I.Terminal A)
        → Ensures (λ t. Unit {0}) (f files) (λ a t. R a)
        → Ensures (At Fact) (at_terminal T S O I f) (λ a. At (Fact × R a))
    unfolding at_terminal
    at_terminal_lem f k =
        ensures_at (λ m. from_console T S O I (f m.files m.terminal).0)
          (λ m. record m { terminal = (f m.files m.terminal).1 }) (λ m. refl)
          (λ m h a e.
            let got =
              with_second (f m.files m.terminal) (from_console-ok (f m.files m.terminal).0 e) in
            let at = rw h.1 at got in
            ((h.0, k.ensured m.terminal tt a (f files m.terminal).1 at), h.1))

    pub over_http_lem :
        {Fact State Identifier A : Type 0} (new : T.World → Comms T S State Identifier)
        (run : Method (CommsError T S) (Comms T S State Identifier) A)
        → Ensures (At Fact) (over_http T S O I new run) (λ a.
          At
            (Fact × ((w : T.World) × (c : Comms T S State Identifier) × (run (new w) ≡ (ok a, c)))))
    unfolding over_http
    over_http_lem new run =
        ensures_at (λ m. from_comms T S O I (run (new m.world)).0)
          (λ m. record m { world = (run (new m.world)).1.link.world }) (λ m. refl)
          (λ m h a e. (
            (
              h.0,
              (
                m.world,
                (run (new m.world)).1,
                with_second (run (new m.world)) (from_comms-ok (run (new m.world)).0 e),
              ),
            ),
            h.1,
          ))

    -- The same with the state that the run leaves, and the world of it.
    pub over_http-run :
        {State Identifier A : Type 0} (new : T.World → Comms T S State Identifier)
        (run : Method (CommsError T S) (Comms T S State Identifier) A) (m n : Machine T S O I)
        (a : A)
        → m.files ≡ files
        → over_http T S O I new run m ≡ (ok a, n)
        → (w : T.World) × (c : Comms T S State Identifier) × (run (new w) ≡ (ok a, c))
          × (n.files ≡ files)
          × (n.world ≡ c.link.world)
    unfolding over_http
    over_http-run new run m n a same e = (
      m.world,
      (run (new m.world)).1,
      with_second (run (new m.world)) (from_comms-ok (run (new m.world)).0 (ap (λ y. y.0) e)),
      sym (ap (λ y. y.1.files) e) ∙ same,
      sym (ap (λ y. y.1.world) e),
    )

    pub writing_lem :
        {Fact : Type 0} (f : O.Files → Outcome ConfigError (Unit {0}) × O.Files)
        → Ensures (At Fact) (writing T S O I f) (λ u m. Fact × (f files ≡ (ok u, m.files)))
    unfolding writing
    writing_lem f =
        ensures_at (λ m. from_config T S O I (f m.files).0)
          (λ m. record m { files = (f m.files).1 }) (λ m. refl)
          (λ m h a e.
            let written = with_second (f m.files) (from_config-ok (f m.files).0 e) in
            (h.0, sym (ap f h.1) ∙ written))
