-- ===== src/Protocol/Coordinator/OverHttp.antt =====
-- The coordinator's protocol over its HTTP implementation.
use frost_tools.Prelude.{ℕ, ◌≡◌, List, length, ok, pure}
use frost_tools.Prelude.Contracts.{ensures_pure}
use frost_tools.Client.Transport.{Transport}
use frost_tools.Cipher.Snow.{Snow}
use frost_tools.Session.Suite.{Suite}
use frost_tools.Session.Coordinator
use frost_tools.Comms.Core.{CommsError, message, frost_error}
use frost_tools.Comms.Payloads.{Payloads}
use frost_tools.Comms.Coordinator.{
  Args, HttpComms, get_signing_commitments, send_signing_package_and_get_signature_shares,
  cleanup_on_error,
}
use frost_tools.Comms.Coordinator.Collects.{Collects, get_signing_commitments_lem}
use frost_tools.Comms.Coordinator.Signs.{
  Finishes, send_signing_package_and_get_signature_shares_lem,
}
use frost_tools.Protocol.Frost.{Frost, Errors}
use frost_tools.Protocol.Coordinator.{Comms, ProcessedArgs, coordinator}
use frost_tools.Protocol.Coordinator.Runs.{KeepsCount, Results, coordinator_lem}

module _ (T : Transport) (S : Snow) (C : Suite) (P : Payloads C) (F : Frost C P) where
  abbrev pub errors : Errors F.FrostError
  errors = record { Error = CommsError T S; message = message; frost_error = λ e. frost_error }

  -- `impl Comms for HTTPComms`; `process_signature` does nothing there.
  abbrev pub http_comms : ℕ → Args T S C P → Comms C P F errors
  http_comms rounds args = record {
    Self = HttpComms T S C P;
    get_signing_commitments = λ key k n. get_signing_commitments T S C P rounds args n;
    send_signing_package_and_get_signature_shares =
        send_signing_package_and_get_signature_shares T S C P rounds;
    process_signature = λ xs. pure tt;
    cleanup_on_error = cleanup_on_error T S C P;
  }

  -- A session for `n` messages and `k` signers keeps to the counts.
  unfoldable pub http-KeepsCount :
      (rounds : ℕ) (args : Args T S C P) (n k : ℕ)
      → KeepsCount C P F errors (http_comms rounds args) n
  unfolding Collects Finishes
  http-KeepsCount rounds args n k = record {
    Fresh = λ c. c.state ≡ Coordinator.new C n k args.signers;
    Collected = Collects T S C P args n k rounds;
    Signed = Finishes T S C P args.signers n k rounds;
    collects = λ key signers. record {
      ensured = λ c fresh tables d e.
          get_signing_commitments_lem T S C P args n k rounds c d tables fresh e;
    };
    signs = λ tables packages randomizers aux_msg. record {
      ensured = λ c h shares d e.
          send_signing_package_and_get_signature_shares_lem T S C P args.signers n k rounds h.0.0
            packages randomizers aux_msg c d shares h.0.1 e;
    };
    processes = λ shares xs. ensures_pure tt (λ c h. h);
    count_collected = λ tables c h. h.0.2.in_columns.count;
    count_signed = λ shares c h. h.2.in_columns.count;
  }

  module _ (rounds : ℕ) (args : Args T S C P) (pargs : ProcessedArgs C P F errors) where
    -- The coordinator over HTTP, from a new session for its messages and signers: if it returns,
    -- it has one signature for each message, each made of the package of its own message and of
    -- the shares for it, where all commitments and shares come from messages of known signers that
    -- the server returned to `receive` and that snow opened.
    pub http_coordinator_lem :
        (c d : HttpComms T S C P) (xs : List F.Signature)
        → c.state ≡ Coordinator.new C (length pargs.messages) pargs.num_signers args.signers
        → coordinator C P F errors (http_comms rounds args) pargs c ≡ (ok xs, d)
        → Results C P F errors
            (http_comms rounds args)
            pargs
            (http-KeepsCount rounds args (length pargs.messages) pargs.num_signers)
            xs
            d
    unfolding http-KeepsCount
    http_coordinator_lem c d xs fresh e =
        coordinator_lem C P F errors (http_comms rounds args) pargs
          (http-KeepsCount rounds args (length pargs.messages) pargs.num_signers) c d xs fresh e
