-- ===== src/Server/Routes.antt =====
-- The table of routes of server/src/route.c. Patterns and URIs are C strings, lists of their bytes
-- without the final NUL; the list of routes starts with the one added last.
pub mod Found
use codo.Prelude.{
  ℕ, zero, suc, ◌+◌, ◌-◌, Bool, true, false, ◌&&◌, not, Option, none, some, List, [], ◌∷◌, ◌==◌,
  ltb, length, take,
}

-- `http_method_t`
pub data Method : Type 0 where
  get post put delete head options patch connect trace unknown : Method

abbrev pub method_code : Method → ℕ
method_code get = 0
method_code post = 1
method_code put = 2
method_code delete = 3
method_code head = 4
method_code options = 5
method_code patch = 6
method_code connect = 7
method_code trace = 8
method_code unknown = 9

abbrev pub same_method : Method → Method → Bool
same_method m n = method_code m == method_code n

-- `route_t`; a handler is any `H`.
pub record Route {ℓ} (H : Type ℓ) : Type ℓ where
  pub pattern : List ℕ
  pub method : Method
  pub handler : H
  pub offload : Bool

-- `sizeof(route->pattern)`
abbrev pub pattern_size : ℕ
pattern_size = 512

-- `strcmp` and `strncmp` as tests for equal bytes.
unfoldable pub same_text : List ℕ → List ℕ → Bool
same_text [] [] = true
same_text (x ∷ xs) (y ∷ ys) = x == y && same_text xs ys
same_text _ _ = false

-- Whether the last byte is '*'.
unfoldable pub is_wildcard : List ℕ → Bool
is_wildcard [] = false
is_wildcard (c ∷ []) = c == 42
is_wildcard (c ∷ d ∷ rest) = is_wildcard (d ∷ rest)

module _ {ℓ} {H : Type ℓ} where
  -- `allocated` is whether calloc returned a block; without one the result is -1.
  unfoldable pub add_route : Bool → List (Route H) → List ℕ → Method → H → Option (List (Route H))
  add_route false routes pattern method handler = none
  add_route true routes pattern method handler = some (
      record {
        pattern = take (pattern_size - 1) pattern;
        method = method;
        handler = handler;
        offload = false;
      }
      ∷ routes)

  -- `server->routes->offload = true`
  unfoldable pub offload_first : List (Route H) → List (Route H)
  offload_first [] = []
  offload_first (r ∷ rest) = record r { offload = true } ∷ rest

  unfoldable pub add_route_offloaded :
      Bool → List (Route H) → List ℕ → Method → H → Option (List (Route H))
  add_route_offloaded allocated routes pattern method handler =
      elim (add_route allocated routes pattern method handler) [
        | none ↦ none
        | some added ↦ some (offload_first added)
      ]

  -- The test of the first pass.
  unfoldable pub matches_exactly : List ℕ → Method → Route H → Bool
  matches_exactly uri method r =
      same_method r.method method && (not (is_wildcard r.pattern) && same_text r.pattern uri)

  -- The test of the second pass.
  unfoldable pub matches_prefix : List ℕ → Method → Route H → Bool
  matches_prefix uri method r =
      same_method r.method method
      && (is_wildcard r.pattern
          && same_text (take (length r.pattern - 1) r.pattern) (take (length r.pattern - 1) uri))

  -- The loop of a pass.
  unfoldable pub first_that : (Route H → Bool) → List (Route H) → Option (Route H)
  first_that test [] = none
  first_that test (r ∷ routes) = elim (test r) [ true ↦ some r | false ↦ first_that test routes ]

  unfoldable pub find_route : List (Route H) → List ℕ → Method → Option (Route H)
  find_route routes uri method = elim (first_that (matches_exactly uri method) routes) [
    | some r ↦ some r
    | none ↦ first_that (matches_prefix uri method) routes
  ]
