-- ===== src/Node/Link/Replay.antt =====
-- src/framework/node/node_link.cpp: replayed challenges, the delay of a reconnect, and revocation.
use native.Mathlib.Nat.{pow-succ', mul-le-mul_left}
use proto_relay.Base.{
  ℕ, zero, suc, ◌*◌, ◌^◌, ◌≤◌, ◌≡◌, refl, ap, ◌∙◌, arith, true, false, false, ◌||◌, some, List, [],
  ◌∷◌, ◌++◌, length, length-append, drop, Bytes, bytes_eq_refl, min,
}
use proto_relay.Node.LinkWire.{Challenge, decode_challenge}
use proto_relay.Node.Link.{
  Link, LinkOptions, LinkError, AuthState, Outside, disconnect, backoff, reconnect_delay,
  bad_options,
}
use proto_relay.Node.Link.Handlers.{
  Credentials, is_challenging, seen_nonce, remember_nonce, remember_challenge, accept_challenge,
  handle_hello_challenge, peer_acceptable,
}
use proto_relay.Node.LinkWire.{auth_message}
use proto_relay.Node.Link.Nonces.{send_signature-SameNonces}

seen_nonce-append :
    (n : Bytes) (a b : List Bytes) → seen_nonce n (a ++ b) ≡ seen_nonce n a || seen_nonce n b
unfolding seen_nonce
seen_nonce-append n [] b = refl
seen_nonce-append n (m ∷ a) b = ground (arith, seen_nonce-append n a b)

-- The last element stays where fewer elements than there are go.
seen_nonce-drop :
    (n : Bytes) (k : ℕ) (a : List Bytes) → k ≤ length a → seen_nonce n (drop k (a ++ n ∷ [])) ≡ true
unfolding seen_nonce
seen_nonce-drop n zero a h = ground (arith, seen_nonce-append n a (n ∷ []), bytes_eq_refl n)
seen_nonce-drop n (suc k) [] h = ground (arith, h)
seen_nonce-drop n (suc k) (m ∷ a) h = seen_nonce-drop n k a (omega arith)

seen_nonce-remember_nonce :
    (n : Bytes) (seen : List Bytes) → seen_nonce n (remember_nonce n seen) ≡ true
unfolding remember_nonce
seen_nonce-remember_nonce n seen =
    seen_nonce-drop n _ seen (omega (arith, length-append seen (n ∷ [])))

refused :
    (k : Credentials) (x : Outside) (c : Challenge) (l : Link)
    → seen_nonce c.nonce l.seen_nonces ≡ true
    → accept_challenge k x (some c) l ≡ disconnect x LinkError.permission_denied l
unfolding accept_challenge
refused k x c l s = ground (arith, s)

accept_challenge-remembers :
    (k : Credentials) (x : Outside) (c : Challenge) (l : Link)
    → peer_acceptable c.node_id l ≡ true
    → seen_nonce c.nonce l.seen_nonces ≡ false
    → seen_nonce c.nonce (accept_challenge k x (some c) l).seen_nonces ≡ true
unfolding accept_challenge remember_challenge
accept_challenge-remembers k x c l p s =
    let sent =
      send_signature-SameNonces x
        (k.sign (auth_message l.options.node_id l.own_challenge.nonce c.node_id c.nonce))
        (remember_challenge c l) in
    rw (p, s)
      (ap (seen_nonce c.nonce) sent.nonces ∙ seen_nonce-remember_nonce c.nonce l.seen_nonces)

waiting_accepts :
    (k : Credentials) (x : Outside) (payload : Bytes) (c : Challenge) (l : Link)
    → l.auth_state ≡ AuthState.challenging
    → decode_challenge payload ≡ some c
    → handle_hello_challenge k x payload l ≡ accept_challenge k x (some c) l
unfolding handle_hello_challenge is_challenging
waiting_accepts k x payload c l a d = ground (arith, a, ap (λ o. accept_challenge k x o l) d)

-- A link that waits for a challenge handles one of an acceptable peer, whose nonce it does not remember,
-- whether the answer can be signed and queued or not. From then on, in whatever session, a challenge
-- with that nonce is refused, whatever id it has, while the link remembers the nonces that it remembered
-- behind the first.
pub handle_hello_challenge-replayed :
    (k : Credentials) (x x' : Outside) (payload payload' : Bytes) (c c' : Challenge) (l l' : Link)
    → l.auth_state ≡ AuthState.challenging
    → decode_challenge payload ≡ some c
    → peer_acceptable c.node_id l ≡ true
    → seen_nonce c.nonce l.seen_nonces ≡ false
    → l'.seen_nonces ≡ (handle_hello_challenge k x payload l).seen_nonces
    → l'.auth_state ≡ AuthState.challenging
    → decode_challenge payload' ≡ some c'
    → c'.nonce ≡ c.nonce
    → handle_hello_challenge k x' payload' l' ≡ disconnect x' LinkError.permission_denied l'
handle_hello_challenge-replayed k x x' payload payload' c c' l l' a d p s e a' d' n =
    let first = waiting_accepts k x payload c l a d in
    waiting_accepts k x' payload' c' l' a' d'
    ∙ refused k x' c' l' (
        ap (λ m. seen_nonce m l'.seen_nonces) n
        ∙ (ap (seen_nonce c.nonce) (e ∙ ap (λ t. t.seen_nonces) first)
            ∙ accept_challenge-remembers k x c l p s))

one_le_pow : (n : ℕ) → 1 ≤ 2 ^ n
one_le_pow zero = omega arith
one_le_pow (suc n) = omega (arith, one_le_pow n, pow-succ' 2 n)

le_mul_pow : (a n : ℕ) → a ≤ a * 2 ^ n
le_mul_pow a n = omega (arith, mul-le-mul_left a (one_le_pow n))

-- With options that the constructor takes, the delay of a reconnect is between `reconnect_min` and
-- `reconnect_max`, for every count of failures and whatever the generator draws.
pub reconnect_delay-bounds :
    (o : LinkOptions) (count drawn : ℕ)
    → bad_options o ≡ false
    → (o.reconnect_min ≤ reconnect_delay o count drawn)
      × (reconnect_delay o count drawn ≤ o.reconnect_max)
unfolding bad_options reconnect_delay backoff
reconnect_delay-bounds o count drawn h =
    ground (arith, h, le_mul_pow o.reconnect_min (min count 20))
