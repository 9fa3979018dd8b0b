-- ===== src/Commands/Coordinator/Writes.antt =====
-- Where a coordinator's command puts its signatures.
use frost_tools.Prelude.{
  ◌≡◌, refl, ap, Bool, true, false, ◌⊎◌, inl, inr, if◌then◌else◌, String, List, [], ◌∷◌, length,
  Outcome, ok, lift, sym, arith,
}
use frost_tools.Prelude.Contracts.{continue-eq-ok}
use frost_tools.Api.{Bytes}
use frost_tools.Client.Transport.{Transport}
use frost_tools.Cipher.Snow.{Snow}
use frost_tools.Session.Suite.{Suite}
use frost_tools.Comms.Payloads.{Payloads}
use frost_tools.Config.File.{Platform}
use frost_tools.Inputs.{Console, is_stdin}
use frost_tools.Protocol.Frost.{Frost}
use frost_tools.Commands.Machine.{Urls, Machine, CommandError, from_console, at_terminal}
use frost_tools.Commands.Steps.{from_console-ok, with_second}
use frost_tools.Commands.Coordinator.{Codes, all_stdout, outputs, write_signature, write_signatures}

abbrev pub AllStdout : List String → Type 0
AllStdout [] = Unit {0}
AllStdout (name ∷ names) = (name ≡ "-") × AllStdout names

-- The names are the given ones, or all `-` if none is given.
abbrev pub Named : List String → List String → Type 0
Named [] names = AllStdout names
Named (g ∷ given) names = names ≡ g ∷ given

all_stdout_lem : {A : Type 0} (xs : List A) → AllStdout (all_stdout xs)
unfolding all_stdout
all_stdout_lem [] = tt
all_stdout_lem (x ∷ xs) = (refl, all_stdout_lem xs)

pub outputs-Named :
    {A : Type 0} (given : List String) (xs : List A) → Named given (outputs given xs)
unfolding outputs
outputs-Named [] xs = all_stdout_lem xs
outputs-Named (g ∷ given) xs = refl

module _ (T : Transport) (S : Snow) (O : Platform) (I : Console O.Files) (U : Urls I.Failure)
    (C : Suite) (P : Payloads C) (F : Frost C P) (E : Codes C P F I.Failure) where
  -- Bytes are printed in hex under `-`, and are else the contents of the file.
  abbrev pub Put : String → Bytes → Machine T S O I → Machine T S O I → Type 0
  Put name bytes m n =
      ((is_stdin I name ≡ true)
        × ((after : I.Terminal) × (I.write_line (O.hex bytes) m.terminal ≡ (ok tt, after))
            × (n ≡ record m { terminal = after })))
      ⊎ ((is_stdin I name ≡ false)
          × ((after : O.Files) × (I.write_bytes name bytes m.files ≡ (ok tt, after))
              × (n ≡ record m { files = after })))

  -- Each signature is put, in its encoding, under its name, one after the other.
  abbrev pub Written : List F.Signature → List String → Machine T S O I → Machine T S O I → Type 0
  Written [] names m n = (length names ≡ 0) × (m ≡ n)
  Written (x ∷ xs) [] m n = ⊥
  Written (x ∷ xs) (name ∷ names) m n =
      (bytes : Bytes) × (next : Machine T S O I) × (E.signature x ≡ ok bytes)
      × Put name bytes m next
      × Written xs names next n

  line_lem :
      (name : String) (bytes : Bytes) (m n : Machine T S O I)
      → is_stdin I name ≡ true
      → at_terminal T S O I (λ files. I.write_line (O.hex bytes)) m ≡ (ok tt, n)
      → Put name bytes m n
  unfolding at_terminal
  line_lem name bytes m n is e = inl (
    is,
    (
      (I.write_line (O.hex bytes) m.terminal).1,
      with_second (I.write_line (O.hex bytes) m.terminal)
          (from_console-ok T S O I (I.write_line (O.hex bytes) m.terminal).0 (ap (λ y. y.0) e)),
      sym (ap (λ y. y.1) e),
    ),
  )

  file_lem :
      (name : String) (bytes : Bytes) (m n : Machine T S O I)
      → is_stdin I name ≡ false
      → ◌≡◌ {A = Outcome (CommandError T S O I) (Unit {0}) × Machine T S O I}
          (
            from_console T S O I (I.write_bytes name bytes m.files).0,
            record m { files = (I.write_bytes name bytes m.files).1 },
          )
          (ok tt, n)
      → Put name bytes m n
  file_lem name bytes m n is e = inr (
    is,
    (
      (I.write_bytes name bytes m.files).1,
      with_second (I.write_bytes name bytes m.files)
          (from_console-ok T S O I (I.write_bytes name bytes m.files).0 (ap (λ y. y.0) e)),
      sym (ap (λ y. y.1) e),
    ),
  )

  put_lem :
      (b : Bool) (name : String) (bytes : Bytes) (m n : Machine T S O I)
      → is_stdin I name ≡ b
      → (if b then at_terminal T S O I (λ files. I.write_line (O.hex bytes)) else (λ s.
            let (r, files) = I.write_bytes name bytes s.files in
            (from_console T S O I r, record s { files = files })))
          m
        ≡ (ok tt, n)
      → Put name bytes m n
  put_lem true name bytes m n is e = line_lem name bytes m n is e
  put_lem false name bytes m n is e = file_lem name bytes m n is e

  write_signature_lem :
      (x : F.Signature) (name : String) (m n : Machine T S O I)
      → write_signature T S O I U C P F E x name m ≡ (ok tt, n)
      → (bytes : Bytes) × (E.signature x ≡ ok bytes) × Put name bytes m n
  unfolding write_signature
  write_signature_lem x name m n e =
      let (bytes, s, first, rest) =
        continue-eq-ok (lift (from_console T S O I (E.signature x)) m) _ e in
      let same : m ≡ s = ap (λ y. y.1) first in
      (
        bytes,
        from_console-ok T S O I (E.signature x) (ap (λ y. y.0) first),
        put_lem (is_stdin I name) name bytes m n refl (rw (sym same) at rest),
      )

  pub write_signatures-Written :
      (xs : List F.Signature) (names : List String) (m n : Machine T S O I)
      → length names ≡ length xs
      → write_signatures T S O I U C P F E xs names m ≡ (ok tt, n)
      → Written xs names m n
  unfolding write_signatures
  write_signatures-Written [] names m n count e = (count, ap (λ y. y.1) e)
  write_signatures-Written (x ∷ xs) [] m n count e = ground arith
  write_signatures-Written (x ∷ xs) (name ∷ names) m n count e =
      let (u, next, first, rest) =
        continue-eq-ok (write_signature T S O I U C P F E x name m) _ e in
      let (bytes, encoded, put) = write_signature_lem x name m next first in
      (bytes, next, encoded, put, write_signatures-Written xs names next n (omega arith) rest)
