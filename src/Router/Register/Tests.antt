-- ===== src/Router/Register/Tests.antt =====
-- The shape of a concrete routing tree.
use go_web.Prelude.{ℕ, true, some}
use go_web.Strings.{Bytes, Bytes-discrete, bytes}
use go_web.Prelude.{holds, get}
use go_web.Router.Register.{RegexpLib, Router, new_router, route}
use go_web.Router.Register.Made.{SafeResult}
use go_web.Router.Register.Valid.{IsWellRouter, route-IsWellRouter}

abbrev literals : RegexpLib
literals = record { compiles = λ e. true; match_string = λ e s. holds (Bytes-discrete e s) }

abbrev add : Router ℕ → Bytes → ℕ → Router ℕ
add ro pattern h = (route literals ro (bytes "GET") pattern (some h)).0

new_router-IsWellRouter : IsWellRouter literals (new_router {H = ℕ})
unfolding new_router get
new_router-IsWellRouter method root e = cc

abbrev users : Router ℕ
users = add (add new_router (bytes "/user/:id(^[0-9]+$)/posts") 1) (bytes "/user/*") 2

users-IsWellRouter : IsWellRouter literals users
users-IsWellRouter =
    (route-IsWellRouter literals (add new_router (bytes "/user/:id(^[0-9]+$)/posts") 1)
      (bytes "GET") (bytes "/user/*") (some 2)
      (route-IsWellRouter literals new_router (bytes "GET") (bytes "/user/:id(^[0-9]+$)/posts")
        (some 1) new_router-IsWellRouter).0).0

-- The second pattern for the same expression is a conflict.
route-IsWellRouter_example :
    IsWellRouter literals (add users (bytes "/user/:name(^[0-9]+$)") 3)
    × SafeResult (route literals users (bytes "GET") (bytes "/user/:name(^[0-9]+$)") (some 3)).1
route-IsWellRouter_example =
    route-IsWellRouter literals users (bytes "GET") (bytes "/user/:name(^[0-9]+$)") (some 3)
      users-IsWellRouter
