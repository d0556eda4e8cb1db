-- ===== src/Router/Node.antt =====
-- The node of the routing tree (web/router.go, `node`), over handlers of any type. A Go node is
-- read as a struct by `load` and written as a whole by `store`; a nil map is the empty one.
use go_web.Prelude.{Option, none, some, List, [], ◌∷◌, ◌≡◌, refl, ap, get, put}
use go_web.Strings.{Bytes, Bytes-discrete}

pub data NodeType : Type 0 where
  static regexp param star : NodeType

unfoldable pub NodeType-discrete : Discrete NodeType
NodeType-discrete = hlevel

mutual
  pub data Node (H : Type 0) : Type 0 where
    alloc :
        NodeType
        → Bytes
        → Bytes
        → Option H
        → Forest H
        → Child H
        → Child H
        → Forest H
        → Option Bytes
        → Bytes
        → Node H

  pub data Forest (H : Type 0) : Type 0 where
    empty : Forest H
    entry : Bytes → Node H → Forest H → Forest H

  pub data Child (H : Type 0) : Type 0 where
    nil : Child H
    ref : Node H → Child H

-- The fields of `node`. `reg_expr` holds the source text of the compiled expression.
pub record NodeFields (H : Type 0) : Type 0 where
  pub typ : NodeType
  pub path : Bytes
  pub route : Bytes
  pub handlefunc : Option H
  pub children : List (Bytes × Node H)
  pub star_child : Option (Node H)
  pub param_child : Option (Node H)
  pub regexp_child : List (Bytes × Node H)
  pub reg_expr : Option Bytes
  pub param_name : Bytes

module _ {H : Type 0} where
  entries : Forest H → List (Bytes × Node H)
  entries empty = []
  entries (entry k n f) = (k, n) ∷ entries f

  forest : List (Bytes × Node H) → Forest H
  forest [] = empty
  forest ((k, n) ∷ l) = entry k n (forest l)

  child_of : Child H → Option (Node H)
  child_of nil = none
  child_of (ref n) = some n

  to_child : Option (Node H) → Child H
  to_child none = nil
  to_child (some n) = ref n

  unfoldable pub load : Node H → NodeFields H
  unfolding entries child_of
  load (alloc t p r h c s q x e m) = record {
    typ = t;
    path = p;
    route = r;
    handlefunc = h;
    children = entries c;
    star_child = child_of s;
    param_child = child_of q;
    regexp_child = entries x;
    reg_expr = e;
    param_name = m;
  }

  unfoldable pub store : NodeFields H → Node H
  unfolding forest to_child
  store f =
      alloc f.typ f.path f.route f.handlefunc (forest f.children) (to_child f.star_child)
        (to_child f.param_child) (forest f.regexp_child) f.reg_expr f.param_name

  entries-forest : (l : List (Bytes × Node H)) → entries (forest l) ≡ l
  unfolding entries forest
  entries-forest [] = refl
  entries-forest ((k, n) ∷ l) = ap (◌∷◌ (k, n)) (entries-forest l)

  child_of-to_child : (o : Option (Node H)) → child_of (to_child o) ≡ o
  unfolding child_of to_child
  child_of-to_child none = refl
  child_of-to_child (some n) = refl

  -- What is stored is what is read.
  pub load-store : (f : NodeFields H) → load (store f) ≡ f
  unfolding load store
  load-store f = λ i. record {
    typ = f.typ;
    path = f.path;
    route = f.route;
    handlefunc = f.handlefunc;
    children = entries-forest f.children i;
    star_child = child_of-to_child f.star_child i;
    param_child = child_of-to_child f.param_child i;
    regexp_child = entries-forest f.regexp_child i;
    reg_expr = f.reg_expr;
    param_name = f.param_name;
  }

  -- A composite literal `&node{path: path, typ: typ}`: the other fields are zero.
  unfoldable pub new_node : NodeType → Bytes → NodeFields H
  new_node t p = record {
    typ = t;
    path = p;
    route = [];
    handlefunc = none;
    children = [];
    star_child = none;
    param_child = none;
    regexp_child = [];
    reg_expr = none;
    param_name = [];
  }

-- Where a child hangs in its parent: under a key of `children` or `regexpChild`, or in one of the
-- two pointer fields.
pub data Place : Type 0 where
  at_static : Bytes → Place
  at_regexp : Bytes → Place
  at_param : Place
  at_star : Place

unfoldable pub Place-discrete : Discrete Place
Place-discrete = hlevel Bytes-discrete

module _ {H : Type 0} where
  unfoldable pub child_at : NodeFields H → Place → Option (Node H)
  child_at f (at_static k) = get Bytes-discrete k f.children
  child_at f (at_regexp e) = get Bytes-discrete e f.regexp_child
  child_at f at_param = f.param_child
  child_at f at_star = f.star_child

  unfoldable pub set_child : NodeFields H → Place → Node H → NodeFields H
  set_child f (at_static k) c = record f { children = put Bytes-discrete k c f.children }
  set_child f (at_regexp e) c = record f { regexp_child = put Bytes-discrete e c f.regexp_child }
  set_child f at_param c = record f { param_child = some c }
  set_child f at_star c = record f { star_child = some c }
