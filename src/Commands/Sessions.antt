-- ===== src/Commands/Sessions.antt =====
-- cli/session.rs
pub mod Visits
use frost_tools.Prelude.{
  String, ◌<>◌, Bool, Option, none, some, List, [], ◌∷◌, map, get, text_eq, Outcome, ok, err, panic,
  Method, ◌>>=◌, ◌>>◌, pure, lift, bind, ok_or, unless, not,
}
use frost_tools.Api.{Uuid, Bytes, PublicKey, GetSessionInfoOutput}
use frost_tools.Client.Transport.{Transport}
use frost_tools.Client.Calls.{
  Link, Call, ClientError, new, challenge, login, list_sessions, get_session_info, close_session,
}
use frost_tools.Cipher.Snow.{Snow}
use frost_tools.Cipher.Peers.{sign}
use frost_tools.Comms.Core.{CommsError, client_error, from_client, from_cipher}
use frost_tools.Config.File.{
  Config, Contact, ConfigError, CommunicationKey, Platform, read, contact_by_pubkey,
}
use frost_tools.Inputs.{Console}
use frost_tools.Commands.Machine.{Machine, Command, CommandError, message, from_comms, reading}

pub record SessionsCommand : Type 0 where
  pub config : Option String
  pub server_url : Option String
  pub group : Option String
  pub close_all : Bool

-- What is printed of a session: who coordinates it, and its signers. `none` is an unknown contact.
pub record Summary : Type 0 where
  pub session_id : Uuid
  pub coordinator : Option String
  pub participants : List (Option Contact)

abbrev pub known : Outcome ConfigError Contact → Option Contact
known (ok c) = some c
known (err e) = none
known panic = none

abbrev pub name_of : Option Contact → Option String
name_of none = none
name_of (some c) = some c.name

unfoldable pub summary : Config → Uuid → GetSessionInfoOutput → Summary
summary config id info = record {
  session_id = id;
  coordinator = name_of (known (contact_by_pubkey config info.coordinator_pubkey));
  participants = map (λ p. known (contact_by_pubkey config p)) info.pubkeys;
}

-- The loop over the sessions.
unfoldable pub visit : (T : Transport) → Config → Bool → List Uuid → Call T (List Summary)
visit T config close_all [] = pure []
visit T config close_all (id ∷ ids) = do
  info ← get_session_info T id
  unless (not close_all) (close_session T id)
  rest ← visit T config close_all ids
  pure (summary config id info ∷ rest)

module _ (T : Transport) (S : Snow) (O : Platform) (I : Console O.Files)
    (xed_sign : Bytes → Uuid → Bytes) where
  unfoldable pub server_url_of :
      Option String → Option String → Config → Outcome (CommandError T S O I) String
  server_url_of (some server_url) group config = ok server_url
  server_url_of none (some group) config =
      bind (ok_or (get config.group group) (message "Group not found")) (λ g.
        ok_or g.server_url (message "the group specified does not have an associated server URL"))
  server_url_of none none config = err (message "must specify either server_url or group")

  abbrev pub Act : Type 0 → Type 0
  Act A = Method (CommsError T S) (Link T) A

  abbrev pub calling : {A : Type 0} → Call T A → Act A
  calling m l = let (r, k) = m l in (from_client T S r, k)

  -- The login, the list, and the loop.
  unfoldable pub listing : Config → CommunicationKey → Bool → Act (List Summary)
  listing config own close_all = do
    c ← calling (challenge T)
    signature ← lift (from_cipher T S (sign S xed_sign own.privkey c))
    token ← calling (login T (record { challenge = c; pubkey = own.pubkey; signature = signature }))
    ids ← calling (list_sessions T)
    calling (visit T config close_all ids)

  -- A run of a client, from its `new`.
  unfoldable pub online : {A : Type 0} → String → Act A → Command T S O I A
  online host run m =
      let (r, l) = run (record { client = new host; world = m.world }) in
      (from_comms T S O I r, record m { world = l.world })

  -- The result is what is printed, session by session.
  unfoldable pub list : SessionsCommand → Command T S O I (List Summary)
  list args = do
    config ← reading T S O I (read O args.config)
    server_url ← lift (server_url_of args.server_url args.group config)
    own ← lift (ok_or config.communication_key (message "user not initialized"))
    online ("https://" <> server_url) (listing config own args.close_all)
