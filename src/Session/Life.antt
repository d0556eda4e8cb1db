-- ===== src/Session/Life.antt =====
-- A session over several requests: the manager (session/manager.go) on a store that keeps the laws
-- of session/session_type.go, with the identifier in a cookie (session/cookie/propagator.go).
use go_web.Prelude.{
  Bool, if◌then◌else◌, ◌≡◌, ◌≢◌, refl, ap, ◌∙◌, Option, none, some, List, [], ◌∷◌, get, put, arith,
  delete,
}
use go_web.Strings.{Bytes, Bytes-discrete}
use go_web.Session.{
  CookieValue, Store, SessionContext, UserValue, session, Result, ok, err, session_not_found,
  and_then, on_store, remember, fetch_session, get_session, init_session, refresh_session,
  remove_session,
}
use go_web.Session.Cookie.{
  CookiePropagator, as_propagator, inject, extract, remove_cookie, minus_one,
}
use go_web.Session.Laws.{IsStore}

-- A request with its cookies, before a handler has run.
abbrev pub visit : {T Sess : Type 0} → List (Bytes × Bytes) → T → SessionContext T Sess
visit cookies t = record { cookies = cookies; w = []; user_values = none; store = t }

-- The cookie that carries an identifier, and the one that takes it away.
abbrev pub set_cookie : CookiePropagator → Bytes → CookieValue
set_cookie p id = p.cookie_opt (record { name = p.cookie_name; value = id; max_age = 0 })

abbrev pub expired_cookie : CookiePropagator → CookieValue
expired_cookie p = p.cookie_opt (record { name = p.cookie_name; value = []; max_age = minus_one })

module _ {T Sess : Type 0} (st : Store T Sess) (IsOk : T → Type 0) (held : T → Bytes → Option Sess)
    (laws : IsStore st IsOk held) (valid_name : Bytes → Bool) (p : CookiePropagator)
    (sess_ctx_key : Bytes) where
  -- What a response carries of a cookie that is set: the cookie, if its name is valid.
  abbrev pub sent : CookieValue → List CookieValue
  sent c = if valid_name c.name then c ∷ [] else []

  -- The values of the context once a session is remembered.
  abbrev pub with_session : Sess → Option (List (Bytes × UserValue Sess))
  with_session s = some ((sess_ctx_key, session s) ∷ [])

  -- The context in which a session is remembered.
  abbrev pub seen : List (Bytes × Bytes) → List CookieValue → Sess → T → SessionContext T Sess
  seen cookies w s t = record { cookies = cookies; w = w; user_values = with_session s; store = t }

  init_visit :
      (cookies : List (Bytes × Bytes)) (id : Bytes) (t t' : T) (s : Sess)
      → st.generate id t ≡ (t', ok s)
      → init_session st (as_propagator valid_name p) sess_ctx_key (visit cookies t) id
        ≡ (seen cookies (sent (set_cookie p id)) s t', ok s)
  unfolding init_session as_propagator inject put
  init_visit cookies id t t' s e = rw e refl

  -- A visit with the cookie of a session that is held.
  visit_found :
      (cookies : List (Bytes × Bytes)) (id : Bytes) (t : T) (s : Sess)
      → get Bytes-discrete p.cookie_name cookies ≡ some id
      → held t id ≡ some s
      → get_session st (as_propagator valid_name p) sess_ctx_key (visit cookies t)
        ≡ (seen cookies [] s t, ok s)
  unfolding get_session fetch_session as_propagator extract put get
  visit_found cookies id t s has_cookie at = rw has_cookie (rw (laws.finds id t) (rw at refl))

  -- A visit with the cookie of a session that is not held.
  visit_missed :
      (cookies : List (Bytes × Bytes)) (id : Bytes) (t : T)
      → get Bytes-discrete p.cookie_name cookies ≡ some id
      → held t id ≡ none
      → (c : SessionContext T Sess) × (get_session st
            (as_propagator valid_name p)
            sess_ctx_key
            (visit cookies t)
          ≡ (c, err session_not_found))
        × (c.store ≡ t)
  unfolding get_session fetch_session as_propagator extract get
  visit_missed cookies id t has_cookie at = (
    record (visit cookies t) { user_values = some [] },
    rw has_cookie (rw (laws.finds id t) (rw at refl)),
    refl,
  )

  then_ok :
      {A B : Type 0} {x : SessionContext T Sess × Result A} {c : SessionContext T Sess} {a : A}
      (next : SessionContext T Sess → A → SessionContext T Sess × Result B)
      → x ≡ (c, ok a)
      → and_then x next ≡ next c a
  then_ok next e = ap (λ y. and_then y next) e

  get_only :
      (s : Sess)
      → get Bytes-discrete sess_ctx_key ((sess_ctx_key, session s) ∷ []) ≡ some (session s)
  unfolding get
  get_only s = ground (arith)

  get_seen :
      (cookies : List (Bytes × Bytes)) (w : List CookieValue) (s : Sess) (t : T)
      → get_session st (as_propagator valid_name p) sess_ctx_key (seen cookies w s t)
        ≡ (seen cookies w s t, ok s)
  unfolding get_session
  get_seen cookies w s t = rw (get_only s) refl

  remember_again :
      (cookies : List (Bytes × Bytes)) (w : List CookieValue) (s : Sess) (t : T)
      → remember st (as_propagator valid_name p) sess_ctx_key (seen cookies w s t) s
        ≡ (seen cookies w s t, ok s)
  unfolding put
  remember_again cookies w s t =
      ap (λ m. (record (visit cookies t) { w = w; user_values = some m }, ok s)) (ground (arith))

  refresh_visit :
      (cookies : List (Bytes × Bytes)) (id : Bytes) (t t' : T) (s : Sess)
      → get Bytes-discrete p.cookie_name cookies ≡ some id
      → held t id ≡ some s
      → st.id_of s t ≡ id
      → st.id_of s t' ≡ id
      → st.refresh id t ≡ (t', ok tt)
      → refresh_session st (as_propagator valid_name p) sess_ctx_key (visit cookies t)
        ≡ (seen cookies (sent (set_cookie p id)) s t', ok s)
  unfolding refresh_session as_propagator inject
  refresh_visit cookies id t t' s has_cookie at named named' e =
      let pr = as_propagator valid_name p in
      let keep = remember st pr sess_ctx_key in
      let again = λ (c : SessionContext T Sess) (u : Unit {0}).
        and_then (get_session st pr sess_ctx_key c) keep in
      then_ok _ (visit_found cookies id t s has_cookie at)
      ∙ then_ok _ (ap (on_store (seen cookies [] s t)) (ap (λ i. st.refresh i t) named ∙ e))
      ∙ then_ok again (ap (λ i. (seen cookies (sent (set_cookie p i)) s t', ok tt)) named')
      ∙ then_ok keep (get_seen cookies (sent (set_cookie p id)) s t')
      ∙ remember_again cookies (sent (set_cookie p id)) s t'

  delete_only :
      (s : Sess) → delete Bytes-discrete sess_ctx_key ((sess_ctx_key, session s) ∷ []) ≡ []
  unfolding delete
  delete_only s = ground (arith)

  remove_visit :
      (cookies : List (Bytes × Bytes)) (id : Bytes) (t t' : T) (s : Sess)
      → get Bytes-discrete p.cookie_name cookies ≡ some id
      → held t id ≡ some s
      → st.id_of s t ≡ id
      → st.remove id t ≡ (t', ok tt)
      → remove_session st (as_propagator valid_name p) sess_ctx_key (visit cookies t)
        ≡ (record (visit cookies t') { w = sent (expired_cookie p); user_values = some [] }, ok tt)
  unfolding remove_session as_propagator remove_cookie
  remove_visit cookies id t t' s has_cookie at named e =
      then_ok _ (visit_found cookies id t s has_cookie at)
      ∙ then_ok _ (ap (on_store (seen cookies [] s t)) (ap (λ i. st.remove i t) named ∙ e))
      ∙ ap
          (λ m. (
            record (visit cookies t') { w = sent (expired_cookie p); user_values = some m },
            ok tt,
          ))
          (delete_only s)

  -- What becomes of a session over four further requests, each on the store that the last one left.
  pub record Life (cookies₀ cookies : List (Bytes × Bytes)) (id : Bytes) (t : T) : Type 0 where
    pub s : Sess
    pub made : T
    pub refreshed : T
    pub removed : T
    pub initialised :
        init_session st (as_propagator valid_name p) sess_ctx_key (visit cookies₀ t) id
        ≡ (seen cookies₀ (sent (set_cookie p id)) s made, ok s)
    pub found :
        get_session st (as_propagator valid_name p) sess_ctx_key (visit cookies made)
        ≡ (seen cookies [] s made, ok s)
    pub kept :
        refresh_session st (as_propagator valid_name p) sess_ctx_key (visit cookies made)
        ≡ (seen cookies (sent (set_cookie p id)) s refreshed, ok s)
    pub ended :
        remove_session st (as_propagator valid_name p) sess_ctx_key (visit cookies refreshed) ≡ (
          record (visit cookies removed) { w = sent (expired_cookie p); user_values = some [] },
          ok tt,
        )
    pub gone :
        (c : SessionContext T Sess) × (get_session st
            (as_propagator valid_name p)
            sess_ctx_key
            (visit cookies removed)
          ≡ (c, err session_not_found))
        × (c.store ≡ removed)
    pub others : (j : Bytes) → j ≢ id → held removed j ≡ held t j

  -- On a store that keeps its laws, and a state of it that is well-formed: InitSession in a request
  -- makes a session and sets its cookie; in later requests with that cookie GetSession finds the
  -- session, RefreshSession returns it and sets the cookie again, RemoveSession takes it out of the
  -- store and lets the cookie expire, and after that GetSession finds no session. The other sessions
  -- stay. A cookie that is set reaches the response if net/http takes its name for valid.
  pub session-Life :
      (cookies₀ cookies : List (Bytes × Bytes)) (id : Bytes) (t : T)
      → get Bytes-discrete p.cookie_name cookies ≡ some id
      → IsOk t
      → Life cookies₀ cookies id t
  session-Life cookies₀ cookies id t has_cookie ok_t =
      let (t₁, s, generated, ok₁, held₁) = laws.generates id t ok_t in
      let at₁ : held t₁ id ≡ some s = ground (arith, held₁ id) in
      let (t₂, was_refreshed, ok₂, held₂) = laws.refreshes id t₁ s ok₁ at₁ in
      let at₂ = held₂ id ∙ at₁ in
      let (t₃, was_removed, ok₃, held₃) = laws.removes id t₂ ok₂ in
      record {
        s = s;
        made = t₁;
        refreshed = t₂;
        removed = t₃;
        initialised = init_visit cookies₀ id t t₁ s generated;
        found = visit_found cookies id t₁ s has_cookie at₁;
        kept =
            refresh_visit cookies id t₁ t₂ s has_cookie at₁ (laws.identifies id t₁ s ok₁ at₁)
              (laws.identifies id t₂ s ok₂ at₂) was_refreshed;
        ended =
            remove_visit cookies id t₂ t₃ s has_cookie at₂ (laws.identifies id t₂ s ok₂ at₂)
              was_removed;
        gone = visit_missed cookies id t₃ has_cookie (ground (arith, held₃ id));
        others = λ j ne. ground (arith, held₁ j, held₂ j, held₃ j);
      }
