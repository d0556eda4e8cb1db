-- ===== src/Session.antt =====
-- Sessions: the interfaces of session/session_type.go and the manager of session/manager.go.
pub mod Cookie
pub mod Memory
pub mod Redis
pub mod Laws
pub mod Life
pub mod Kept
pub mod Tests
use go_web.Prelude.{ℕ, Option, none, some, List, [], ◌∷◌, ◌++◌, get, put, delete, maybe}
use go_web.Strings.{Bytes, Bytes-discrete}

pub data SessionError : Type 0 where
  session_not_found : SessionError
  key_not_found : SessionError
  no_cookie : SessionError
  client_error : SessionError

-- A value, an error, or a panic (a failed type assertion).
pub data Result (A : Type 0) : Type 0 where
  ok : A → Result A
  err : SessionError → Result A
  panic : Result A

-- A cookie of `net/http`, with the fields that are set; `max_age` as an int64.
pub record CookieValue : Type 0 where
  pub name : Bytes
  pub value : Bytes
  pub max_age : ℕ

-- `Store`, on a state `T` that each call may change; and `ID` of a session, which may stand there.
pub record Store (T Sess : Type 0) : Type 0 where
  pub generate : Bytes → T → T × Result Sess
  pub remove : Bytes → T → T × Result (Unit {0})
  pub find : Bytes → T → T × Result Sess
  pub refresh : Bytes → T → T × Result (Unit {0})
  pub id_of : Sess → T → Bytes

-- `Propagator`. A request is its cookies, a response writer the cookies set on it.
pub record Propagator : Type 0 where
  pub inject : Bytes → List CookieValue → List CookieValue × Result (Unit {0})
  pub extract : List (Bytes × Bytes) → Result Bytes
  pub remove_from : List CookieValue → List CookieValue × Result (Unit {0})

-- What stands in `UserValues`.
pub data UserValue (Sess : Type 0) : Type 0 where
  session : Sess → UserValue Sess
  other : UserValue Sess

-- The parts of the context that the manager uses, with the state of the store.
pub record SessionContext (T Sess : Type 0) : Type 0 where
  pub cookies : List (Bytes × Bytes)
  pub w : List CookieValue
  pub user_values : Option (List (Bytes × UserValue Sess))
  pub store : T

module _ {T Sess : Type 0} where
  -- `if err != nil { return err }`, and the code after it.
  abbrev pub and_then :
      {A B : Type 0}
      → SessionContext T Sess × Result A
      → (SessionContext T Sess → A → SessionContext T Sess × Result B)
      → SessionContext T Sess × Result B
  and_then (c, ok a) next = next c a
  and_then (c, err e) next = (c, err e)
  and_then (c, panic) next = (c, panic)

  abbrev pub on_store :
      {A : Type 0} → SessionContext T Sess → T × Result A → SessionContext T Sess × Result A
  on_store c (t, r) = (record c { store = t }, r)

  abbrev pub on_writer :
      {A : Type 0}
      → SessionContext T Sess
      → List CookieValue × Result A
      → SessionContext T Sess × Result A
  on_writer c (w, r) = (record c { w = w }, r)

  -- `if ctx.UserValues == nil { ctx.UserValues = make(map[string]any, 1) }`
  abbrev pub values_of : SessionContext T Sess → List (Bytes × UserValue Sess)
  values_of c = maybe [] (λ m. m) c.user_values

  -- `val.(Session)`
  abbrev pub assert_session :
      SessionContext T Sess → UserValue Sess → SessionContext T Sess × Result Sess
  assert_session c (session s) = (c, ok s)
  assert_session c other = (c, panic)

  module _ (st : Store T Sess) (pr : Propagator) (sess_ctx_key : Bytes) where
    abbrev pub remember : SessionContext T Sess → Sess → SessionContext T Sess × Result Sess
    remember c s = (
      record c { user_values = some (put Bytes-discrete sess_ctx_key (session s) (values_of c)) },
      ok s,
    )

    -- The part of `GetSession` after the look into `UserValues`.
    unfoldable pub fetch_session : SessionContext T Sess → SessionContext T Sess × Result Sess
    fetch_session c =
        and_then (c, pr.extract c.cookies)
          λ c₁ id. and_then (on_store c₁ (st.find id c₁.store)) remember

    unfoldable pub get_session : SessionContext T Sess → SessionContext T Sess × Result Sess
    unfolding fetch_session
    get_session c =
        let c₁ = record c { user_values = some (values_of c) } in
        maybe (fetch_session c₁) (λ v. assert_session c₁ v)
          (get Bytes-discrete sess_ctx_key (values_of c))

    unfoldable pub init_session :
        SessionContext T Sess → Bytes → SessionContext T Sess × Result Sess
    init_session c id =
        and_then (on_store c (st.generate id c.store))
          λ c₁ s. and_then (on_writer c₁ (pr.inject id c₁.w)) λ c₂ _. remember c₂ s

    unfoldable pub refresh_session : SessionContext T Sess → SessionContext T Sess × Result Sess
    unfolding get_session
    refresh_session c = and_then (get_session c) λ c₁ s.
        and_then (on_store c₁ (st.refresh (st.id_of s c₁.store) c₁.store)) λ c₂ _.
          and_then (on_writer c₂ (pr.inject (st.id_of s c₂.store) c₂.w))
            λ c₃ _. and_then (get_session c₃) remember

    unfoldable pub remove_session :
        SessionContext T Sess → SessionContext T Sess × Result (Unit {0})
    unfolding get_session
    remove_session c = and_then (get_session c) λ c₁ s.
        and_then (on_store c₁ (st.remove (st.id_of s c₁.store) c₁.store)) λ c₂ _.
          let c₃ = record c₂ {
            user_values = some (delete Bytes-discrete sess_ctx_key (values_of c₂));
          } in
          on_writer c₃ (pr.remove_from c₃.w)
