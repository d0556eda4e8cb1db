-- ===== src/Router/Register.antt =====
-- Registration (web/router.go): `parseFaram`, `ChildOrCreate` and its helpers, and `Route`.
-- A panic leaves what was written before it: a method returns the new state beside its outcome.
pub mod Handlers
pub mod Insert
pub mod Updates
pub mod Routes
pub mod Reached
pub mod Shape
pub mod Made
pub mod Valid
pub mod Kept
pub mod Paths
pub mod Tests
use mathlib.Core.List.{tail}
use mathlib.Core.Logic.{ite}
use go_web.Prelude.{
  Bool, Option, none, some, List, [], ◌∷◌, ◌++◌, ◌&&◌, not, get, put, maybe, if◌then◌else◌,
  ℕ_discrete, holds,
}
use go_web.Strings.{Bytes, Bytes-discrete, last_is, split, cut, trim_right}
use go_web.Router.Node.{
  Node, NodeFields, static, regexp, param, star, load, store, new_node, Place, at_static, at_regexp,
  at_param, at_star, set_child,
}

-- The panics of the package, and of Go's runtime where the code indexes an empty string, follows a
-- nil pointer or compiles a malformed expression.
pub data Panic : Type 0 where
  empty_pattern no_leading_slash trailing_slash root_conflict empty_segment route_conflict : Panic
  regexp_conflict param_conflict bad_regexp out_of_range nil_pointer : Panic

pub data Result {ℓ} (A : Type ℓ) : Type ℓ where
  ok : A → Result A
  panic : Panic → Result A

infixl 5 ◌>>=◌
abbrev pub ◌>>=◌ {ℓ κ} : {A : Type ℓ} {B : Type κ} → Result A → (A → Result B) → Result B
ok a >>= f = f a
panic p >>= f = panic p

-- Go's package regexp: whether `MustCompile` accepts an expression, and `MatchString` of the
-- compiled one. The compiled expression's `String()` is the text that it was compiled from.
pub record RegexpLib : Type 0 where
  pub compiles : Bytes → Bool
  pub match_string : Bytes → Bytes → Bool

module _ {H : Type 0} where
  -- The child's place and the child: the one that hangs there, or a new one.
  -- An expression that is registered already must come from the same pattern.
  unfoldable pub check_reg : NodeFields H → Bytes → Bytes → Result (Place × NodeFields H)
  check_reg c pattern expr =
      ite (Bytes-discrete c.path pattern)
        (maybe (panic nil_pointer)
          (λ e. ite (Bytes-discrete e expr) (ok (at_regexp expr, c)) (panic regexp_conflict))
          c.reg_expr)
        (panic regexp_conflict)

  unfoldable pub child_or_create_reg :
      NodeFields H → Bytes → Bytes → Bytes → Result (Place × NodeFields H)
  unfolding new_node check_reg
  child_or_create_reg n pattern expr name =
      maybe
        (ok (
          at_regexp expr,
          record (new_node regexp pattern) { param_name = name; reg_expr = some expr },
        ))
        (λ c. check_reg (load c) pattern expr) (get Bytes-discrete expr n.regexp_child)

  unfoldable pub child_or_create_param :
      NodeFields H → Bytes → Bytes → Result (Place × NodeFields H)
  unfolding new_node
  child_or_create_param n pattern name =
      maybe (ok (at_param, record (new_node param pattern) { param_name = name }))
        (λ c.
          ite (Bytes-discrete (load c).path pattern) (ok (at_param, load c)) (panic param_conflict))
        n.param_child

  unfoldable pub child_or_create_star : NodeFields H → Place × NodeFields H
  unfolding new_node
  child_or_create_star n = (at_star, maybe (new_node star (b'*' ∷ [])) load n.star_child)

  unfoldable pub child_or_create_static : NodeFields H → Bytes → Place × NodeFields H
  unfolding new_node
  child_or_create_static n pattern = (
    at_static pattern,
    maybe (new_node static pattern) load (get Bytes-discrete pattern n.children),
  )

  abbrev pub for_param : NodeFields H → Bytes → Bytes × Option Bytes → Result (Place × NodeFields H)
  for_param n pattern (name, none) = child_or_create_param n pattern name
  for_param n pattern (name, some expr) = child_or_create_reg n pattern expr name

  -- Goes on at the child and hangs what becomes of it in its place.
  abbrev pub at_child :
      NodeFields H
      → Result (Place × NodeFields H)
      → (NodeFields H → NodeFields H × Result (Unit {0}))
      → NodeFields H × Result (Unit {0})
  at_child n (panic p) next = (n, panic p)
  at_child n (ok (place, c)) next = let (c', r) = next c in (set_child n place (store c'), r)

-- The name of the parameter and, for a regular expression, its text.
module _ (lib : RegexpLib) where
  abbrev compiled : Bytes → Bytes → Result (Bytes × Option Bytes)
  compiled name expr = if lib.compiles expr then ok (name, some expr) else panic bad_regexp

  unfoldable pub parse_param : Bytes → Result (Bytes × Option Bytes)
  parse_param [] = panic out_of_range
  parse_param (c ∷ name) = elim (cut b'(' name) [
    | none ↦ ok (name, none)
    | some (head, rest) ↦
        if last_is b')' rest then compiled head (trim_right b')' rest) else ok (name, none)
  ]

  module _ {H : Type 0} where
    unfoldable pub child_or_create : NodeFields H → Bytes → Result (Place × NodeFields H)
    unfolding child_or_create_reg child_or_create_param child_or_create_star child_or_create_static
    child_or_create n [] = panic out_of_range
    child_or_create n (c ∷ s) =
        ite (ℕ_discrete c b':') (do found ← parse_param (c ∷ s); for_param n (c ∷ s) found)
          (ite (Bytes-discrete (c ∷ s) (b'*' ∷ [])) (ok (child_or_create_star n))
            (ok (child_or_create_static n (c ∷ s))))

    -- The loop of `Route` over the segments, and the check and assignment after it.
    unfoldable pub insert :
        List Bytes → Bytes → Option H → NodeFields H → NodeFields H × Result (Unit {0})
    insert [] routepath h n =
        maybe (record n { handlefunc = h }, ok tt) (λ _. (n, panic route_conflict)) n.handlefunc
    insert ([] ∷ segs) routepath h n = (n, panic empty_segment)
    insert ((c ∷ s) ∷ segs) routepath h n =
        let here = routepath ++ (b'/' ∷ c ∷ s) in
        at_child n (child_or_create n (c ∷ s))
          (λ child. insert segs here h (record child { route = here }))

-- `router`: the tree of each HTTP method.
pub record Router (H : Type 0) : Type 0 where
  pub trees : List (Bytes × Node H)

-- The guards of `Route`, in its order.
abbrev pub check_pattern : Bytes → Result (Unit {0})
check_pattern [] = panic empty_pattern
check_pattern (c ∷ s) =
    ite (ℕ_discrete c b'/')
      (if not (holds (Bytes-discrete (c ∷ s) (b'/' ∷ []))) && last_is b'/' (c ∷ s)
        then panic trailing_slash
        else ok tt)
      (panic no_leading_slash)

module _ {H : Type 0} where
  unfoldable pub new_router : Router H
  new_router = record { trees = [] }

  -- The root that `Route` creates for a new method.
  unfoldable pub new_root : NodeFields H
  unfolding new_node
  new_root = record (new_node static (b'/' ∷ [])) { route = b'/' ∷ [] }

  unfoldable pub root_of : Router H → Bytes → NodeFields H
  unfolding new_root
  root_of ro method = maybe new_root load (get Bytes-discrete method ro.trees)

  abbrev pub set_root :
      Router H → Bytes → NodeFields H × Result (Unit {0}) → Router H × Result (Unit {0})
  set_root ro method (root, r) =
      (record ro { trees = put Bytes-discrete method (store root) ro.trees }, r)

  abbrev pub after_guards :
      Router H → Result (Unit {0}) → Router H × Result (Unit {0}) → Router H × Result (Unit {0})
  after_guards ro (panic p) next = (ro, panic p)
  after_guards ro (ok _) next = next

  abbrev pub set_root_handler : Option H → NodeFields H → NodeFields H × Result (Unit {0})
  set_root_handler h root =
      maybe (record root { handlefunc = h }, ok tt) (λ _. (root, panic root_conflict))
        root.handlefunc

module _ (lib : RegexpLib) {H : Type 0} where
  -- The part of `Route` after its guards, at the root of the method's tree.
  unfoldable pub register : Bytes → Option H → NodeFields H → NodeFields H × Result (Unit {0})
  unfolding insert
  register pattern h root =
      ite (Bytes-discrete pattern (b'/' ∷ [])) (set_root_handler h root)
        (insert lib (split b'/' (tail pattern)) [] h root)

  unfoldable pub route : Router H → Bytes → Bytes → Option H → Router H × Result (Unit {0})
  unfolding register
  route ro method pattern h =
      after_guards ro (check_pattern pattern)
        (set_root ro method (register pattern h (root_of ro method)))
