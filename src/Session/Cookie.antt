-- ===== src/Session/Cookie.antt =====
-- The cookie propagator of session/cookie/propagator.go. `SetCookie` of net/http appends to the
-- response a cookie whose name is valid; `Request.Cookie` finds the first cookie of a name.
use go_web.Prelude.{ℕ, Bool, if◌then◌else◌, List, [], ◌∷◌, ◌++◌, get, maybe}
use go_web.Strings.{Bytes, Bytes-discrete}
use go_web.Session.{CookieValue, Propagator, Result, ok, err, no_cookie}

pub record CookiePropagator : Type 0 where
  pub cookie_name : Bytes
  pub cookie_opt : CookieValue → CookieValue

-- `WithCookieOption`.
abbrev pub with_cookie_option : (CookieValue → CookieValue) → CookiePropagator → CookiePropagator
with_cookie_option opt p = record p { cookie_opt = opt }

abbrev pub apply_propagator_options :
    List (CookiePropagator → CookiePropagator) → CookiePropagator → CookiePropagator
apply_propagator_options [] p = p
apply_propagator_options (opt ∷ opts) p = apply_propagator_options opts (opt p)

unfoldable pub new_propagator :
    Bytes → List (CookiePropagator → CookiePropagator) → CookiePropagator
new_propagator name opts =
    apply_propagator_options opts (record { cookie_name = name; cookie_opt = λ c. c })

unfoldable pub extract : CookiePropagator → List (Bytes × Bytes) → Result Bytes
extract p cookies = maybe (err no_cookie) ok (get Bytes-discrete p.cookie_name cookies)

-- `MaxAge: -1`.
abbrev pub minus_one : ℕ
minus_one = 18446744073709551615

-- `valid_name` is the test of net/http on the name of a cookie.
module _ (valid_name : Bytes → Bool) where
  -- `http.SetCookie`, which adds nothing for a cookie with an invalid name.
  abbrev pub http_set_cookie : CookieValue → List CookieValue → List CookieValue
  http_set_cookie c w = if valid_name c.name then w ++ c ∷ [] else w

  unfoldable pub inject :
      CookiePropagator → Bytes → List CookieValue → List CookieValue × Result (Unit {0})
  inject p id w = (
    http_set_cookie (p.cookie_opt (record { name = p.cookie_name; value = id; max_age = 0 })) w,
    ok tt,
  )

  unfoldable pub remove_cookie :
      CookiePropagator → List CookieValue → List CookieValue × Result (Unit {0})
  remove_cookie p w = (
    http_set_cookie
        (p.cookie_opt (record { name = p.cookie_name; value = []; max_age = minus_one })) w,
    ok tt,
  )

  unfoldable pub as_propagator : CookiePropagator → Propagator
  unfolding inject extract remove_cookie
  as_propagator p = record { inject = inject p; extract = extract p; remove_from = remove_cookie p }
