-- ===== src/View.antt =====
-- The example handler of view/views.go.
use go_web.Prelude.{Option, [], ◌∷◌, ◌++◌, maybe}
use go_web.Strings.{Bytes, bytes}
use go_web.Http.{returned, HandleFunc, write}
use go_web.Http.Values.{
  ValueError, SignUpReq, CommonResponse, new_sign_up_req, new_common_response, bind_json, resp_json,
}

-- The message of the response, in UTF-8.
abbrev pub message : Bytes
message =
    232 ∷ 190 ∷ 147 ∷ 229 ∷ 133 ∷ 165 ∷ 231 ∷ 154 ∷ 132 ∷ 228 ∷ 191 ∷ 161 ∷ 230 ∷ 129 ∷ 175 ∷ 228
    ∷ 184 ∷ 186 ∷ []

-- `decode` and `marshal` are those of encoding/json, `text` is the text of an error.
module _ {S : Type 0} (decode : Bytes → Bytes × Option ValueError × Option SignUpReq)
    (marshal : CommonResponse SignUpReq → Option Bytes) (text : ValueError → Bytes) where
  -- `Sign`.
  unfoldable pub sign : HandleFunc S
  unfolding bind_json resp_json
  sign ctx =
      let (c, err, val) = bind_json decode ctx in
      let req = maybe new_sign_up_req (λ r. r) val in
      returned (
        maybe (resp_json marshal c 200 (new_common_response 4 message req)).0
          (λ e. record c { w = write (bytes "invalid request:" ++ text e) c.w }) err)
