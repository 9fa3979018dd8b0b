-- ===== src/Frostd/Examples/Runs.antt =====
-- A session of two, from the logins on, and the theorems about the server at its states.
use frost_tools.Prelude.{ℕ, zero, suc, ◌≡◌, refl, Option, none, some, [], ◌∷◌, get, nat_eq}
use frost_tools.Api.{Uuid, PublicKey, LoginArgs, CreateNewSessionArgs, Bytes}
use frost_tools.Frostd.State.{Session, AppState, new}
use frost_tools.Frostd.Functions
use frost_tools.Frostd.Functions.{User}
use frost_tools.Frostd.Server
use frost_tools.Frostd.Server.{Call, Event, call, step, handle, dispatch}
use frost_tools.Frostd.Index.{listed}
use frost_tools.Frostd.Registry.{IsFresh}
use frost_tools.Frostd.Reach.{Reach, start, next}
use frost_tools.Frostd.Listing.{listed-members}
use frost_tools.Frostd.Examples.Store.{server, scan}

abbrev pub copies_of : ℕ → ℕ → Bytes
copies_of zero b = []
copies_of (suc n) b = b ∷ copies_of n b

abbrev pub alice : PublicKey
alice = record { bytes = copies_of 32 7 }

abbrev pub bob : PublicKey
bob = record { bytes = copies_of 32 8 }

abbrev pub login_of : PublicKey → Uuid → LoginArgs
login_of p c = record { challenge = c; pubkey = p; signature = copies_of 64 1 }

abbrev pub at : ℕ → Uuid → Option Uuid → Server.Request → Event
at now fresh bearer r = call (record { now = now; fresh = fresh; bearer = bearer; request = r })

abbrev pub begin : AppState server
begin = new server

-- Alice gets challenge 11 and token 21, Bob challenge 12 and token 22.
abbrev pub s1 : AppState server
s1 = step server begin (at 0 11 none Server.challenge)

abbrev pub s2 : AppState server
s2 = step server s1 (at 1 21 none (Server.login (login_of alice 11)))

abbrev pub s3 : AppState server
s3 = step server s2 (at 2 12 none Server.challenge)

abbrev pub s4 : AppState server
s4 = step server s3 (at 3 22 none (Server.login (login_of bob 12)))

-- Alice coordinates session 31, in which Bob is the one participant.
abbrev pub opening : CreateNewSessionArgs
opening = record { pubkeys = bob ∷ []; message_count = 1 }

abbrev pub s5 : AppState server
s5 = step server s4 (at 4 31 (some 21) (Server.create_new_session opening))

IsFresh-31 : IsFresh server s4 31
unfolding listed step handle new Functions.challenge Functions.login get scan
IsFresh-31 = record { unlisted = λ p. refl }

pub Reach-5 : Reach server s5
Reach-5 =
    next
      (next
        (next
          (next (next start (at 0 11 none Server.challenge) tt)
            (at 1 21 none (Server.login (login_of alice 11))) tt)
          (at 2 12 none Server.challenge) tt)
        (at 3 22 none (Server.login (login_of bob 12))) tt)
      (at 4 31 (some 21) (Server.create_new_session opening)) IsFresh-31

abbrev pub open_session : Session
open_session = record {
  pubkeys = bob ∷ [];
  coordinator_pubkey = alice;
  message_count = 1;
  queue = [];
}

pub session_31 : server.sessions.get s5.sessions 31 ≡ some open_session
unfolding step handle new Functions.challenge Functions.login Functions.create_new_session
    Functions.authenticate
session_31 = refl

listed-members_example : listed s5.sessions_by_pubkey bob 31 ≡ Functions.in_session open_session bob
listed-members_example = listed-members server Reach-5 31 open_session bob session_31
