-- ===== src/Frostd/Auth.antt =====
-- Challenges, logins and access tokens.
use frost_tools.Prelude.{
  ℕ, ◌≡◌, ◌↔◌, true, false, some, arith, ◌==◌, nat_eq, is_ok, ok, err, length, if◌then◌else◌,
}
use frost_tools.Api.{Uuid, LoginArgs, unauthorized}
use frost_tools.Frostd.State.{Env, AppState}
use frost_tools.Frostd.Functions.{User, authenticate, login, logout}

module _ (E : Env) where
  -- What a login has to present: a 32-byte key, a 64-byte signature that verifies, and a challenge
  -- that is outstanding.
  abbrev pub Presents : AppState E → LoginArgs → Type 0
  Presents s args =
      (length args.pubkey.bytes ≡ 32)
      × (length args.signature ≡ 64)
      × (E.verify args.pubkey.bytes args.challenge args.signature ≡ true)
      × (E.challenges.contains s.challenges args.challenge ≡ true)

  module _ (now : ℕ) (fresh : Uuid) (args : LoginArgs) (s : AppState E) where
    -- A login succeeds exactly on what it has to present.
    pub login_iff : (is_ok (login E now fresh args s).0 ≡ true) ↔ Presents s args
    unfolding login
    login_iff = (
      λ h. (
        ground arith,
        ground arith,
        ground arith,
        ground (arith, E.challenges.take_found args.challenge s.challenges),
      ),
      λ h. ground (arith, E.challenges.take_found args.challenge s.challenges),
    )

    -- A successful login uses its challenge up, makes the new token stand for the key, and leaves
    -- every other challenge and token as it was; a failed login makes no token.
    pub login_effect :
        let (r, t) = login E now fresh args s in
        (is_ok r ≡ true
          → (r ≡ ok fresh)
            × ((c : Uuid)
                → E.challenges.contains t.challenges c
                  ≡ (if args.challenge == c then false else E.challenges.contains s.challenges c))
            × ((k : Uuid)
                → E.access_tokens.get t.access_tokens k ≡ (
                    if fresh == k
                    then some args.pubkey
                    else E.access_tokens.get s.access_tokens k)))
        × (is_ok r ≡ false → t.access_tokens ≡ s.access_tokens)
    unfolding login
    login_effect = (
      λ h. (
        ground arith,
        λ c. ground (arith, E.challenges.contains_take args.challenge c s.challenges),
        λ k. ground (arith, E.access_tokens.get_insert now fresh k args.pubkey s.access_tokens),
      ),
      λ h. ground arith,
    )

  -- After a logout its token authenticates nobody, and every other token the same user as before.
  pub logout_lem :
      (user : User) (s : AppState E)
      → let t = (logout E user s).1 in
        ((authenticate E (some user.current_token) t).0 ≡ err unauthorized)
        × ((k : Uuid)
            → (user.current_token == k) ≡ false
            → (authenticate E (some k) t).0 ≡ (authenticate E (some k) s).0)
  unfolding logout authenticate
  logout_lem user s = (
    ground
        (arith, E.access_tokens.get_remove user.current_token user.current_token s.access_tokens),
    λ k h. ground (arith, E.access_tokens.get_remove user.current_token k s.access_tokens),
  )
