-- ===== src/Readiness/Cookie.antt =====
-- The cookie that an event carries: a handle's token in 64 bits. Its halves do not overlap, so that `|`
-- is a sum, `&` with the low mask a remainder and the shift a quotient.
use vio.Prelude.{
  ℕ, ◌+◌, ◌-◌, ◌*◌, ◌/◌, ◌%◌, ◌≤◌, ◌<◌, ◌≡◌, ◌≢◌, Bool, ◌||◌, arith, ltb, ◌==◌, if◌then◌else◌,
  size_mod,
}
use vio.Error.{Result, ok, err, make_error, invalid_state}
use vio.Backend.Operation.{HandleToken}
use vio.Readiness.{int_max}

-- `1 << token_generation_shift`, and the largest value.
abbrev pub half : ℕ
half = 4294967296

abbrev pub wake_event_cookie : ℕ
wake_event_cookie = 18446744073709551615

abbrev pub is_unencodable : HandleToken → Bool
is_unencodable token =
    token.native_handle == 0
    || token.generation == 0
    || ltb (half - 1) token.native_handle
    || ltb (half - 1) token.generation

-- Of the epoll backend.
unfoldable pub pack_event_cookie : HandleToken → Result ℕ
pack_event_cookie token =
    if is_unencodable token
    then err (make_error invalid_state "backend handle token cannot be encoded")
    else ok (token.generation * half + token.native_handle)

-- Of the kqueue backend, where the wake cookie is refused.
unfoldable pub pack_kqueue_cookie : HandleToken → Result ℕ
pack_kqueue_cookie token =
    let cookie = token.generation * half + token.native_handle in
    if is_unencodable token
    then err (make_error invalid_state "backend handle token cannot be encoded")
    else if cookie == wake_event_cookie
    then err (make_error invalid_state "backend handle token conflicts with wake cookie")
    else ok cookie

unfoldable pub unpack_event_cookie : ℕ → HandleToken
unpack_event_cookie cookie = record { native_handle = cookie % half; generation = cookie / half }

-- A token that the epoll backend packs is the one that its cookie unpacks to; the cookie fits into 64
-- bits; and it is not the wake cookie, for a handle that is a file descriptor. The kqueue backend packs
-- such a token in the same way.
pub unpack-pack :
    (token : HandleToken) (cookie : ℕ)
    → pack_event_cookie token ≡ ok cookie
    → token.native_handle ≤ int_max
    → (unpack_event_cookie cookie ≡ token)
      × (cookie < size_mod)
      × (cookie ≢ wake_event_cookie)
      × (pack_kqueue_cookie token ≡ ok cookie)
unfolding pack_event_cookie pack_kqueue_cookie unpack_event_cookie
unpack-pack token cookie packed small =
    (ground arith, ground arith, λ e. ground arith, ground arith)
