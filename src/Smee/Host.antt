-- ===== src/Smee/Host.antt =====
-- internal/smee/client.go: what is logged of the relay's URL.
use autoscaler.Common.{[], any, arith, false, refl, some, ℕ, ◌++◌, ◌==◌, ◌∷◌, ◌≡◌, ◌≢◌}
use autoscaler.Smee.{after_scheme, before_slash, smee_host}
use autoscaler.Text.{Bytes, codes, strip_prefix}

abbrev pub NoByte : ℕ → Bytes → Type 0
NoByte c s = any (λ d. d == c) s ≡ false

before_slash-append :
    (host path : Bytes) → NoByte b'/' host → before_slash (host ++ (b'/' ∷ path)) ≡ host
unfolding before_slash
before_slash-append [] path h = refl
before_slash-append (c ∷ host) path h = ground (arith, before_slash-append host path)

after_scheme-append :
    (scheme rest : Bytes)
    → NoByte b':' scheme
    → after_scheme (scheme ++ (codes "://" ++ rest)) ≡ some rest
unfolding after_scheme strip_prefix
after_scheme-append [] rest h = refl
after_scheme-append (c ∷ scheme) rest h = ground (arith, after_scheme-append scheme rest)

-- Of a URL whose scheme has no colon and whose host is not empty and has no slash, only the host
-- is logged, whatever the channel behind it is.
pub smee_host-append :
    (scheme host channel : Bytes)
    → NoByte b':' scheme
    → NoByte b'/' host
    → host ≢ []
    → smee_host (scheme ++ (codes "://" ++ (host ++ (b'/' ∷ channel)))) ≡ host
unfolding smee_host
smee_host-append scheme host channel h k some_host = ground (
  arith,
  after_scheme-append scheme (host ++ (b'/' ∷ channel)) h,
  before_slash-append host channel k,
)
