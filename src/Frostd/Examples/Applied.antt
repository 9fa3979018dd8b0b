-- ===== src/Frostd/Examples/Applied.antt =====
-- The theorems about the server, each at a state of the run.
use frost_tools.Prelude.{
  ℕ, ◌≤◌, ◌≡◌, ◌↔◌, ◌⊎◌, refl, true, false, not, ◌&&◌, none, some, List, [], ◌∷◌, ◌++◌, is_ok, ok,
  list_beq, get, insert, contains, if◌then◌else◌, ◌==◌, nat_eq,
}
use frost_tools.Api.{
  Uuid, PublicKey, public_key_eq, public_key_beq, SendArgs, ReceiveArgs, Msg, max_msg_size,
}
use frost_tools.Frostd.State.{
  Session, SessionParticipant, coordinator, session_participant_beq, session_participant_eq,
  AppState, new, expire_session,
}
use frost_tools.Frostd.Functions
use frost_tools.Frostd.Functions.{
  User, recipients_of, mailbox, in_session, push_all, push_back, drain, is_stranger,
}
use frost_tools.Frostd.Server
use frost_tools.Frostd.Server.{Call, Event, call, step, handle, dispatch, run}
use frost_tools.Frostd.Index.{listed}
use frost_tools.Frostd.Lifetime.{close_lem, expire_leaves}
use frost_tools.Frostd.Auth.{Presents, login_iff, login_effect}
use frost_tools.Frostd.Replay.{login_once}
use frost_tools.Frostd.Tokens.{IsLogin, token_origin}
use frost_tools.Frostd.Mailbox.{Reads, queued, send_iff, send_effect, receive_effect}
use frost_tools.Frostd.Delivery.History.{Lives, all_taken, all_sent, delivery}
use frost_tools.Frostd.Examples.Store.{server, scan}
use frost_tools.Frostd.Examples.Runs.{
  alice, bob, login_of, at, s1, s2, s5, Reach-5, open_session, session_31,
}

abbrev alice_user : User
alice_user = record { pubkey = alice; current_token = 21 }

abbrev bob_user : User
bob_user = record { pubkey = bob; current_token = 22 }

close_lem_example :
    let (r, t) = Functions.close_session server alice_user 31 s5 in
    (r ≡ ok tt)
    × ((j : Uuid)
        → server.sessions.get t.sessions j
          ≡ (if 31 == j then none else server.sessions.get s5.sessions j))
    × ((p : PublicKey) (j : Uuid)
        → listed t.sessions_by_pubkey p j ≡ (not (31 == j) && listed s5.sessions_by_pubkey p j))
close_lem_example = close_lem server s5 alice_user 31 open_session Reach-5 session_31 refl

timed_out :
    server.sessions.next 100000 s5.sessions
    ≡ some (31, open_session, server.sessions.remove 31 s5.sessions)
unfolding step handle new Functions.challenge Functions.login Functions.create_new_session
    Functions.authenticate scan
timed_out = refl

-- Alice, who is not a participant, keeps the id of a session that is gone.
expire_leaves_example :
    let t = expire_session server 100000 s5 in
    (server.sessions.get t.sessions 31 ≡ none)
    × ((p : PublicKey)
        → listed t.sessions_by_pubkey p 31 ≡ (alice == p && not (contains (bob ∷ []) p)))
    × ((d : ℕ) × (server.sessions.deadline s5.sessions 31 ≡ some d) × (d ≤ 100000))
expire_leaves_example =
    expire_leaves server s5 100000 31 open_session (server.sessions.remove 31 s5.sessions) Reach-5
      timed_out

-- Bob sends five to the coordinator, and Alice fetches it.
abbrev five : SendArgs
five = record { session_id = 31; recipients = []; msg = 5 ∷ [] }

abbrev fetch : ReceiveArgs
fetch = record { session_id = 31; as_coordinator = true }

abbrev bobs : Msg
bobs = record { sender = bob; msg = 5 ∷ [] }

abbrev s6 : AppState server
s6 = (Functions.send server 5 bob_user five s5).1

bob_sends : is_ok (Functions.send server 5 bob_user five s5).0 ≡ true
unfolding step handle new Functions.challenge Functions.login Functions.create_new_session
    Functions.authenticate Functions.send recipients_of in_session is_stranger public_key_beq
    list_beq contains
bob_sends = refl

session_6 :
    server.sessions.get s6.sessions 31
    ≡ some (record open_session { queue = (coordinator, bobs ∷ []) ∷ [] })
unfolding step handle new Functions.challenge Functions.login Functions.create_new_session
    Functions.authenticate Functions.send recipients_of in_session is_stranger public_key_beq
    list_beq contains push_all push_back get insert
session_6 = refl

alice_fetches : (Functions.receive server 6 alice_user fetch s6).0 ≡ ok (bobs ∷ [])
unfolding step handle new Functions.challenge Functions.login Functions.create_new_session
    Functions.authenticate Functions.send recipients_of in_session is_stranger public_key_beq
    list_beq contains push_all push_back get insert Functions.receive mailbox drain
    session_participant_beq
alice_fetches = refl

send_iff_example : (is_ok (Functions.send server 5 bob_user five s5).0 ≡ true) ↔ (
    (1 ≤ max_msg_size)
    × ((x : Session) × (server.sessions.get s5.sessions 31 ≡ some x)
        × (in_session x bob ≡ true)
        × (true ≡ true)))
send_iff_example = send_iff server 5 bob_user s5 five

send_effect_example :
    queued server (Functions.send server 5 bob_user five s5).1 31 coordinator
    ≡ queued server s5 31 coordinator ++ bobs ∷ []
send_effect_example = send_effect server 5 bob_user s5 five bob_sends 31 coordinator

receive_effect_example :
    (own : SessionParticipant) × Reads
      (record open_session { queue = (coordinator, bobs ∷ []) ∷ [] })
      alice
      true
      own
    × (bobs ∷ [] ≡ queued server s6 31 own)
    × ((j : Uuid) (r : SessionParticipant)
        → queued server (Functions.receive server 6 alice_user fetch s6).1 j r
          ≡ (if 31 == j && own == r then [] else queued server s6 j r))
receive_effect_example =
    receive_effect server 6 alice_user s6 fetch
      (record open_session { queue = (coordinator, bobs ∷ []) ∷ [] }) (bobs ∷ []) session_6
      alice_fetches

login_iff_example :
    (is_ok (Functions.login server 1 21 (login_of alice 11) s1).0 ≡ true)
    ↔ Presents server s1 (login_of alice 11)
login_iff_example = login_iff server 1 21 (login_of alice 11) s1

login_effect_example :
    let (r, t) = Functions.login server 1 21 (login_of alice 11) s1 in
    (is_ok r ≡ true
      → (r ≡ ok 21)
        × ((c : Uuid)
            → server.challenges.contains t.challenges c
              ≡ (if 11 == c then false else server.challenges.contains s1.challenges c))
        × ((k : Uuid)
            → server.access_tokens.get t.access_tokens k
              ≡ (if 21 == k then some alice else server.access_tokens.get s1.access_tokens k)))
    × (is_ok r ≡ false → t.access_tokens ≡ s1.access_tokens)
login_effect_example = login_effect server 1 21 (login_of alice 11) s1

alice_logs_in : is_ok (Functions.login server 1 21 (login_of alice 11) s1).0 ≡ true
unfolding step handle new Functions.challenge Functions.login
alice_logs_in = refl

-- Another challenge is drawn in between, and the timer of the challenges runs.
abbrev meanwhile : List Event
meanwhile = at 2 12 none Server.challenge ∷ Event.challenge_timer 2 ∷ []

login_once_example :
    is_ok
      (Functions.login server 3 23
        (login_of bob 11)
        (run server (Functions.login server 1 21 (login_of alice 11) s1).1 meanwhile)).0
    ≡ false
login_once_example =
    login_once server 1 21 (login_of alice 11) s1 meanwhile 3 23 (login_of bob 11) alice_logs_in
      (refl, tt) refl

token_21 : server.access_tokens.get s2.access_tokens 21 ≡ some alice
unfolding step handle new Functions.challenge Functions.login
token_21 = refl

token_origin_example :
    (server.access_tokens.get s1.access_tokens 21 ≡ some alice)
    ⊎ IsLogin server s1 (at 1 21 none (Server.login (login_of alice 11))) 21 alice
token_origin_example =
    token_origin server s1 (at 1 21 none (Server.login (login_of alice 11))) 21 alice token_21

abbrev history : List Event
history = at 5 0 (some 22) (Server.send five) ∷ at 6 0 (some 21) (Server.receive fetch) ∷ []

history-Lives : Lives server 31 coordinator s5 history
unfolding step handle new Functions.challenge Functions.login Functions.create_new_session
    Functions.authenticate Functions.send recipients_of in_session is_stranger public_key_beq
    list_beq contains push_all push_back get insert Functions.receive mailbox drain
    session_participant_beq
history-Lives = (refl, tt, (refl, tt, refl))

delivery_example :
    all_taken server 31 coordinator s5 history
      ++ queued server (run server s5 history) 31 coordinator
    ≡ queued server s5 31 coordinator ++ all_sent server 31 coordinator s5 history
delivery_example = delivery server 31 coordinator s5 history Reach-5 history-Lives
