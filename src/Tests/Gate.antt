-- ===== src/Tests/Gate.antt =====
-- The viewer gate at concrete inputs.
use dun_tunel.Prelude.{
  split, split_once, split_head, trim, trim_start_by, trim_end_by, member, ◌≡◌, ◌↔◌, refl, true,
  List, [], ◌∷◌, some, Text, text, Assoc, text_eq, All, lookup, arith, if◌then◌else◌, is_whitespace,
}
use dun_tunel.Prelude.Results.{ok, err}
use dun_tunel.Gate.Revocation.{
  Poller, Poll, RevocationList, not_modified, listed, start_poller, poll, is_fresh, contains,
}
use dun_tunel.Gate.Revocation.Mirror.{unchanged, tagged, stop, next, Succeeds, quiet, poll-mirrors}
use dun_tunel.Gate.Revocation.Schedule.{run, seen, poll_wait_bounds, stays_fresh}
use dun_tunel.Gate.Verify.{
  check_token, check_claims, request_host, find_cookie, cookie_or, respond, Libraries, HeaderMap,
  JwksCache, CookieClaims, eddsa, authorize, check_handler, extract_cookie, cookie_audience,
}
use dun_tunel.Gate.Verify.Cookies.{render, IsClean, extract_cookie-render}
use dun_tunel.Control.Signalling.{authorize_viewer}
use dun_tunel.Control.Signalling.Guard.{check_handler-authorize_viewer}
use dun_tunel.Gate.Verify.Decision.{Passes, authorize-accepts}

-- A text, each code point behind a 1, and a 0 at its end.
write : Text → Text → Text
write [] rest = 0 ∷ rest
write (c ∷ t) rest = 1 ∷ c ∷ write t rest

abbrev etag_of : List Text → Text
etag_of [] = []
etag_of (t ∷ ts) = write t (etag_of ts)

write-inj : (s t a b : Text) → write s a ≡ write t b → (s ≡ t) × (a ≡ b)
unfolding write
write-inj [] [] a b h = (refl, cc)
write-inj [] (d ∷ t) a b h = absurd (ground arith)
write-inj (c ∷ s) [] a b h = absurd (ground arith)
write-inj (c ∷ s) (d ∷ t) a b h =
    let same : c ≡ d = cc in
    let rest : write s a ≡ write t b = cc in let (e, f) = write-inj s t a b rest in (cc, f)

etag_of-inj : (a b : List Text) → etag_of a ≡ etag_of b → a ≡ b
unfolding write
etag_of-inj [] [] h = refl
etag_of-inj [] ([] ∷ ts) h = cc
etag_of-inj [] ((c ∷ t) ∷ ts) h = cc
etag_of-inj ([] ∷ ss) [] h = cc
etag_of-inj ((c ∷ s) ∷ ss) [] h = cc
etag_of-inj (s ∷ ss) (t ∷ ts) h =
    let (e, f) = write-inj s t (etag_of ss) (etag_of ts) h in let rest = etag_of-inj ss ts f in cc

abbrev revoked_one : List Text
revoked_one = text "j1" ∷ []

abbrev first_poll : Poll
first_poll = record {
  reply = listed revoked_one (some (etag_of revoked_one));
  recorded_at = 50;
  ended_at = 60;
}

abbrev second_poll : Poll
second_poll = record { reply = not_modified; recorded_at = 5100; ended_at = 5110 }

abbrev polled : Poller
polled = poll (start_poller 5000 30000 0) first_poll

poll-mirrors_example :
    (Succeeds not_modified
      → ((poll polled second_poll).inner.set ≡ revoked_one)
        × ((poll polled second_poll).inner.last_success ≡ some 5100))
    × ((¬ Succeeds not_modified) → (poll polled second_poll).inner ≡ polled.inner)
poll-mirrors_example =
    poll-mirrors etag_of 5000 30000 0 polled revoked_one second_poll etag_of-inj
      (next revoked_one first_poll stop tagged) (unchanged (unfold poll in refl))

stays_fresh_example :
    is_fresh
      (seen 30000 (poll (run (start_poller 5000 30000 0) (first_poll ∷ [])) second_poll))
      10150
    ≡ true
stays_fresh_example =
    stays_fresh 5000 30000 0 (first_poll ∷ []) second_poll 100 100 10150 quiet (omega arith)
      (omega arith) (omega (arith, (poll_wait_bounds 5000 30000 0 (first_poll ∷ []) second_poll).0))

abbrev cookies : Assoc Text
cookies = (text "theme", text "dark") ∷ (text "dun_share_session", text "abc.def") ∷ []

abbrev short_cookies : Assoc Text
short_cookies = (text "a", text "1") ∷ (text "b", text "2") ∷ []

short_cookies-IsClean : All IsClean short_cookies
unfolding is_whitespace
short_cookies-IsClean = (((refl, tt), (refl, tt)), (((refl, tt), (refl, tt)), tt))

extract_cookie-render_example :
    extract_cookie (render short_cookies) (text "b") ≡ lookup (text "b") short_cookies
extract_cookie-render_example = extract_cookie-render short_cookies (text "b") short_cookies-IsClean

abbrev claims : CookieClaims
claims = record {
  sub = text "s1";
  aud = cookie_audience;
  exp = 2000;
  iat = 1000;
  jti = text "j2";
  host = text "abc.sin.example";
}

abbrev libraries : Libraries Text
libraries = record {
  to_str = λ s. some s;
  to_lowercase = λ s. s;
  decode_header = λ t. some (record { alg = eddsa; kid = some (text "k1") });
  decode =
      λ key aud t. if text_eq t (text "abc.def") then ok claims else err (text "InvalidSignature");
}

abbrev headers : HeaderMap
headers = (text "host", text "abc.sin.example:8443") ∷ (text "cookie", render cookies) ∷ []

abbrev jwks : JwksCache Text
jwks = (text "k1", text "public") ∷ []

abbrev revocation : RevocationList
revocation = seen 30000 polled

authorize-accepts_example :
    (authorize libraries headers jwks revocation true 5000 ≡ ok claims)
    ↔ Passes libraries jwks revocation headers true 5000 claims
authorize-accepts_example = authorize-accepts libraries jwks revocation headers true 5000 claims

admitted :
    authorize_viewer
      (check_handler libraries (λ s. some s) headers jwks revocation true 5000).forwarded_sub
      (text "s1")
    ≡ ok tt
unfolding check_handler respond authorize check_token check_claims request_host extract_cookie
    find_cookie cookie_or is_fresh contains authorize_viewer split split_once split_head trim
    trim_start_by trim_end_by is_whitespace text_eq lookup member poll start_poller render
admitted = refl

check_handler-authorize_viewer_example :
    (c : CookieClaims) × Passes libraries jwks revocation headers true 5000 c
    × (some c.sub ≡ some (text "s1"))
check_handler-authorize_viewer_example =
    check_handler-authorize_viewer libraries (λ s. some s) headers jwks revocation true 5000
      (text "s1") admitted
