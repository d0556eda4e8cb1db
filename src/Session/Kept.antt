-- ===== src/Session/Kept.antt =====
-- That sessions are found again: in the context (session/manager.go) and in the memory store
-- (session/memory/store.go).
use go_web.Prelude.{
  ℕ, ◌≡◌, refl, sym, ap, ◌∙◌, subst, none, some, delete, List, [], ◌∷◌, get, put, maybe, maybe_case,
  get-put_self, get-delete_self, ℕ_discrete,
}
use go_web.Strings.{Bytes, Bytes-discrete}
use go_web.Session.{
  CookieValue, remove_session, Store, Propagator, SessionContext, Result, ok, err, panic, UserValue,
  session, other, and_then, on_store, on_writer, values_of, assert_session, remember, fetch_session,
  get_session, init_session,
}
use go_web.Session.Memory.{
  GoCache, MemoryStore, MemorySession, generate, find, session_get, session_set,
}

module _ {T Sess : Type 0} (st : Store T Sess) (pr : Propagator) (sess_ctx_key : Bytes) where
  -- A result that is a session is kept in the context.
  Keeps : SessionContext T Sess × Result Sess → Type 0
  Keeps (c, ok s) =
      (m : List (Bytes × UserValue Sess)) × (c.user_values ≡ some m)
      × (get Bytes-discrete sess_ctx_key m ≡ some (session s))
  Keeps (c, err e) = Unit
  Keeps (c, panic) = Unit

  Keeps-and_then :
      {A : Type 0} (x : SessionContext T Sess × Result A)
      (next : SessionContext T Sess → A → SessionContext T Sess × Result Sess)
      → ((c : SessionContext T Sess) (a : A) → Keeps (next c a))
      → Keeps (and_then x next)
  unfolding Keeps
  Keeps-and_then (c, ok a) next h = h c a
  Keeps-and_then (c, err e) next h = tt
  Keeps-and_then (c, panic) next h = tt

  Keeps-remember : (c : SessionContext T Sess) (s : Sess) → Keeps (remember st pr sess_ctx_key c s)
  unfolding Keeps
  Keeps-remember c s = (_, refl, get-put_self Bytes-discrete sess_ctx_key (session s) (values_of c))

  Keeps-assert_session :
      (c : SessionContext T Sess) (m : List (Bytes × UserValue Sess)) (v : UserValue Sess)
      → c.user_values ≡ some m
      → get Bytes-discrete sess_ctx_key m ≡ some v
      → Keeps (assert_session c v)
  unfolding Keeps
  Keeps-assert_session c m (session s) h at = (m, h, at)
  Keeps-assert_session c m other h at = tt

  Keeps-get_session : (c : SessionContext T Sess) → Keeps (get_session st pr sess_ctx_key c)
  unfolding get_session fetch_session
  Keeps-get_session c =
      maybe_case Keeps (get Bytes-discrete sess_ctx_key (values_of c))
        (λ _.
          Keeps-and_then (record c { user_values = some (values_of c) }, pr.extract c.cookies) _
            (λ c₁ id. Keeps-and_then (on_store c₁ (st.find id c₁.store)) _ Keeps-remember))
        (λ v at. Keeps-assert_session _ (values_of c) v refl at)

  Keeps-init_session :
      (c : SessionContext T Sess) (id : Bytes) → Keeps (init_session st pr sess_ctx_key c id)
  unfolding init_session
  Keeps-init_session c id =
      Keeps-and_then (on_store c (st.generate id c.store)) _
        (λ c₁ s. Keeps-and_then (on_writer c₁ (pr.inject id c₁.w)) _ (λ c₂ _. Keeps-remember c₂ s))

  get_session-kept :
      (x : SessionContext T Sess × Result Sess) (c : SessionContext T Sess) (s : Sess)
      → Keeps x
      → x ≡ (c, ok s)
      → get_session st pr sess_ctx_key c ≡ (c, ok s)
  unfolding get_session Keeps
  get_session-kept x c s kept e =
      let (m, is_m, at) = subst Keeps e kept in
      let same : values_of c ≡ m = ap (λ o. maybe [] (λ n. n) o) is_m in
      ap
        (λ o.
          maybe (fetch_session st pr sess_ctx_key (record c { user_values = some (values_of c) }))
            (λ v. assert_session (record c { user_values = some (values_of c) }) v) o)
        (ap (get Bytes-discrete sess_ctx_key) same ∙ at)
      ∙ ap (λ o. (record c { user_values = o }, ok s)) (ap some same ∙ sym is_m)

  -- A session that GetSession has returned is returned again, from the context alone.
  pub get_session_twice :
      (c c' : SessionContext T Sess) (s : Sess)
      → get_session st pr sess_ctx_key c ≡ (c', ok s)
      → get_session st pr sess_ctx_key c' ≡ (c', ok s)
  get_session_twice c c' s e = get_session-kept _ c' s (Keeps-get_session c) e

  -- After InitSession, GetSession returns the session that was made, from the context alone.
  pub get_session-init_session :
      (c c' : SessionContext T Sess) (id : Bytes) (s : Sess)
      → init_session st pr sess_ctx_key c id ≡ (c', ok s)
      → get_session st pr sess_ctx_key c' ≡ (c', ok s)
  get_session-init_session c c' id s e = get_session-kept _ c' s (Keeps-init_session c id) e

  -- A result without an error leaves no session in the context.
  Forgets : SessionContext T Sess × Result (Unit {0}) → Type 0
  Forgets (c, ok _) = get Bytes-discrete sess_ctx_key (values_of c) ≡ none
  Forgets (c, err e) = Unit
  Forgets (c, panic) = Unit

  Forgets-and_then :
      {A : Type 0} (x : SessionContext T Sess × Result A)
      (next : SessionContext T Sess → A → SessionContext T Sess × Result (Unit {0}))
      → ((c : SessionContext T Sess) (a : A) → Forgets (next c a))
      → Forgets (and_then x next)
  unfolding Forgets
  Forgets-and_then (c, ok a) next h = h c a
  Forgets-and_then (c, err e) next h = tt
  Forgets-and_then (c, panic) next h = tt

  Forgets-on_writer :
      (c : SessionContext T Sess) (x : List CookieValue × Result (Unit {0}))
      → get Bytes-discrete sess_ctx_key (values_of c) ≡ none
      → Forgets (on_writer c x)
  unfolding Forgets
  Forgets-on_writer c (w, ok _) h = h
  Forgets-on_writer c (w, err e) h = tt
  Forgets-on_writer c (w, panic) h = tt

  Forgets-remove_session :
      (c : SessionContext T Sess) → Forgets (remove_session st pr sess_ctx_key c)
  unfolding remove_session
  Forgets-remove_session c = Forgets-and_then (get_session st pr sess_ctx_key c) _ λ c₁ s.
      Forgets-and_then (on_store c₁ (st.remove (st.id_of s c₁.store) c₁.store)) _ λ c₂ _.
        Forgets-on_writer
          (record c₂ { user_values = some (delete Bytes-discrete sess_ctx_key (values_of c₂)) }) _
          (get-delete_self Bytes-discrete sess_ctx_key (values_of c₂))

  -- After RemoveSession has ended without an error, GetSession asks the propagator and the store
  -- again.
  pub get_session-remove_session :
      (c c' : SessionContext T Sess)
      → remove_session st pr sess_ctx_key c ≡ (c', ok tt)
      → get_session st pr sess_ctx_key c'
        ≡ fetch_session st pr sess_ctx_key (record c' { user_values = some (values_of c') })
  unfolding get_session Forgets
  get_session-remove_session c c' e =
      let gone = subst Forgets e (Forgets-remove_session c) in rw gone refl

module _ {C : Type 0} (lib : GoCache C) where
  -- If the cache package finds what it was just given, then a session that Generate has made is
  -- found under its identifier, and reads back what was set on it through the first pointer.
  pub session_get-session_set :
      (found_after_set : (k : Bytes) (p d : ℕ) (c : C) → lib.lookup k (lib.set k p d c) ≡ some p)
      (s : MemoryStore C) (id key val : Bytes)
      → (p : ℕ) × ((generate lib id s).1 ≡ ok p)
        × ((session_set p key val (generate lib id s).0).1 ≡ ok tt)
        × ((find lib id (session_set p key val (generate lib id s).0).0).1 ≡ ok p)
        × (session_get p key (session_set p key val (generate lib id s).0).0 ≡ ok val)
  unfolding generate find session_get session_set put
  session_get-session_set found_after_set s id key val =
      let made : MemorySession = record { id = id; data_ = []; expiration = s.expiration } in
      let written : MemorySession = record {
        id = id;
        data_ = (key, val) ∷ [];
        expiration = s.expiration;
      } in
      let there = get-put_self ℕ_discrete s.next made s.sessions in
      (
        s.next,
        refl,
        rw there refl,
        rw there (rw (found_after_set id s.next s.expiration s.cache) refl),
        rw there (
            rw (get-put_self ℕ_discrete s.next written (put ℕ_discrete s.next made s.sessions))
              (rw (get-put_self Bytes-discrete key val []) refl)),
      )
