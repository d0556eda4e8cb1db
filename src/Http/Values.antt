-- ===== src/Http/Values.antt =====
-- Values read from a context (web/context.go): path parameters, query values, headers, and their
-- conversion.
use go_web.Prelude.{ℕ, Option, none, some, List, [], ◌∷◌, get, maybe}
use mathlib.Core.Logic.{ite}
use go_web.Strings.{Bytes, Bytes-discrete}
use go_web.Http.{Context, Request, set_header}

-- The errors that the package makes itself, and those of the packages it calls.
pub data ValueError : Type 0 where
  no_such_key : ValueError
  nil_body : ValueError
  library_error : ValueError

-- `StringValue`: `none` is a nil error.
pub record StringValue : Type 0 where
  pub val : Bytes
  pub err : Option ValueError

abbrev pub missing : StringValue
missing = record { val = []; err = some no_such_key }

abbrev pub present : Bytes → StringValue
present v = record { val = v; err = none }

unfoldable pub to_string : StringValue → Bytes × Option ValueError
to_string s = (s.val, s.err)

-- `parse_int` is `strconv.ParseInt(_, 10, 64)`.
unfoldable pub to_int64 : (Bytes → ℕ × Option ValueError) → StringValue → ℕ × Option ValueError
to_int64 parse_int s = maybe (parse_int s.val) (λ e. (0, some e)) s.err

-- `header` is `c.R.Header.Get`.
unfoldable pub header_json : (Bytes → Bytes) → Bytes → StringValue
header_json header key = ite (Bytes-discrete (header key) []) missing (present (header key))

-- `signUpReq` and `NewsignUpReq`.
pub record SignUpReq : Type 0 where
  pub email : Bytes
  pub password : Bytes
  pub confirmed_password : Bytes

abbrev pub new_sign_up_req : SignUpReq
new_sign_up_req = record { email = []; password = []; confirmed_password = [] }

-- `commmonResponse` and `NewcommonResponse`.
pub record CommonResponse (D : Type 0) : Type 0 where
  pub biz_code : ℕ
  pub msg : Bytes
  pub data_ : D

abbrev pub new_common_response : {D : Type 0} → ℕ → Bytes → D → CommonResponse D
new_common_response b m d = record { biz_code = b; msg = m; data_ = d }

-- `val[0]`: `none` is a panic, an index out of range.
abbrev pub first_value : List Bytes → Option StringValue
first_value [] = none
first_value (v ∷ vs) = some (present v)

module _ {S : Type 0} where
  unfoldable pub path_value : Context S → Bytes → StringValue
  path_value c key = maybe missing present (get Bytes-discrete key c.path_params)

  -- `query` is `c.R.URL.Query()`; the first call keeps what it returns.
  unfoldable pub query_value :
      (Request → List (Bytes × List Bytes)) → Context S → Bytes → Context S × Option StringValue
  query_value query c key =
      let values = maybe (query c.r) (λ m. m) c.cache_query_values in
      (
        record c { cache_query_values = some values },
        maybe (some missing) first_value (get Bytes-discrete key values),
      )

  -- `parse_form` is `c.R.ParseForm()`, with the request that it leaves, and `value_of` is
  -- `c.R.FormValue` on it.
  unfoldable pub form_value :
      (Request → Request × Option ValueError)
      → (Request → Bytes → Bytes)
      → Context S
      → Bytes
      → Context S × StringValue
  form_value parse_form value_of c key =
      let (r, err) = parse_form c.r in
      (
        record c { r = r },
        maybe (present (value_of r key)) (λ e. record { val = []; err = some e }) err,
      )

  -- `decode` is a decoder on the body that refuses unknown fields: what is left of the body, and
  -- the value or an error.
  unfoldable pub bind_json :
      {D : Type 0}
      → (Bytes → Bytes × Option ValueError × Option D)
      → Context S
      → Context S × Option ValueError × Option D
  bind_json decode c =
      maybe (c, some nil_body, none)
        (λ body.
          let (rest, err, val) = decode body in
          (record c { r = record c.r { body = some rest } }, err, val))
        c.r.body

  -- `setHeader`, which adds a value; `join` is how values of one key stand together.
  unfoldable pub add_header : (Bytes → Bytes → Bytes) → Context S → Bytes → Bytes → Context S
  add_header join c key val =
      let val' = maybe val (λ v. join v val) (get Bytes-discrete key c.w.headers) in
      record c { w = set_header key val' c.w }

  -- `Render` of the template engine as a parameter: the data and the error.
  unfoldable pub render :
      {D : Type 0}
      → (Bytes → D → Bytes × Option ValueError)
      → Context S
      → Bytes
      → D
      → Context S × Option ValueError
  render engine c name data_ =
      let (val, err) = engine name data_ in
      (record c { resp_data = val; resp_status_code = maybe 200 (λ _. 500) err }, err)

  -- `json.Marshal` as a parameter; an error leaves the context.
  unfoldable pub resp_json :
      {D : Type 0} → (D → Option Bytes) → Context S → ℕ → D → Context S × Option ValueError
  resp_json marshal c code data_ =
      maybe (c, some library_error)
        (λ val. (record c { resp_status_code = code; resp_data = val }, none)) (marshal data_)

  unfoldable pub ok_request_json :
      {D : Type 0} → (D → Option Bytes) → Context S → D → Context S × Option ValueError
  unfolding resp_json
  ok_request_json marshal c data_ = resp_json marshal c 200 data_

  unfoldable pub bad_request_json :
      {D : Type 0} → (D → Option Bytes) → Context S → D → Context S × Option ValueError
  unfolding resp_json
  bad_request_json marshal c data_ = resp_json marshal c 400 data_
