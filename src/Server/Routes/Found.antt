-- ===== src/Server/Routes/Found.antt =====
-- What `find_route` of server/src/route.c finds.
use codo.Prelude.{
  ℕ, zero, suc, ◌-◌, ◌≡◌, refl, ◌∙◌, ap, ap₂, sym, Bool, true, false, ◌&&◌, not, Option, none, some,
  List, [], ◌∷◌, ◌++◌, ◌==◌, arith, length, take, drop, take-append-drop, take-append_self,
  length-append, Bool-cases, inl, inr, ◌⊎◌, if◌then◌else◌,
}
use codo.Server.Routes.{
  Method, method_code, same_method, Route, same_text, is_wildcard, matches_exactly, matches_prefix,
  first_that, find_route,
}

pub same_text-eq : (xs ys : List ℕ) → same_text xs ys ≡ true → xs ≡ ys
unfolding same_text
same_text-eq [] [] h = refl
same_text-eq [] (y ∷ ys) h = absurd (ground arith)
same_text-eq (x ∷ xs) [] h = absurd (ground arith)
same_text-eq (x ∷ xs) (y ∷ ys) h =
    let head : x ≡ y = ground arith in
    let tail : same_text xs ys ≡ true = ground arith in ap₂ ◌∷◌ head (same_text-eq xs ys tail)

pub same_text_self : (xs : List ℕ) → same_text xs xs ≡ true
unfolding same_text
same_text_self [] = refl
same_text_self (x ∷ xs) = ground (arith, same_text_self xs)

of_code : ℕ → Method
of_code n =
    if n == 0
    then Method.get
    else (if n == 1
        then Method.post
        else (if n == 2
            then Method.put
            else (if n == 3
                then Method.delete
                else (if n == 4
                    then Method.head
                    else (if n == 5
                        then Method.options
                        else (if n == 6
                            then Method.patch
                            else (if n == 7
                                then Method.connect
                                else (if n == 8 then Method.trace else Method.unknown))))))))

of_code-method_code : (m : Method) → of_code (method_code m) ≡ m
unfolding of_code
of_code-method_code Method.get = refl
of_code-method_code Method.post = refl
of_code-method_code Method.put = refl
of_code-method_code Method.delete = refl
of_code-method_code Method.head = refl
of_code-method_code Method.options = refl
of_code-method_code Method.patch = refl
of_code-method_code Method.connect = refl
of_code-method_code Method.trace = refl
of_code-method_code Method.unknown = refl

method_of_same : (m n : Method) → same_method m n ≡ true → m ≡ n
method_of_same m n h =
    let codes : method_code m ≡ method_code n = ground arith in
    sym (of_code-method_code m) ∙ ap of_code codes ∙ of_code-method_code n

same_method_self : (m n : Method) → m ≡ n → same_method m n ≡ true
same_method_self m n h = let codes = ap method_code h in ground arith

&&-split : (a b : Bool) → (a && b) ≡ true → (a ≡ true) × (b ≡ true)
&&-split true b h = (refl, h)
&&-split false b h = absurd (ground arith)

-- A wildcard is what stands in front of the '*'.
wildcard-stem :
    (p : List ℕ) (n : ℕ) → is_wildcard p ≡ true → n ≡ length p - 1 → p ≡ take n p ++ (42 ∷ [])
unfolding is_wildcard
wildcard-stem [] n h e = absurd (ground arith)
wildcard-stem (c ∷ []) zero h e = let star : c ≡ 42 = ground arith in ap (λ x. x ∷ []) star
wildcard-stem (c ∷ []) (suc n) h e = absurd (omega arith)
wildcard-stem (c ∷ d ∷ rest) zero h e = absurd (omega arith)
wildcard-stem (c ∷ d ∷ rest) (suc n) h e = ap (◌∷◌ c) (wildcard-stem (d ∷ rest) n h (omega arith))

is_wildcard-stem : (stem : List ℕ) → is_wildcard (stem ++ (42 ∷ [])) ≡ true
unfolding is_wildcard
is_wildcard-stem [] = refl
is_wildcard-stem (c ∷ []) = refl
is_wildcard-stem (c ∷ d ∷ rest) = is_wildcard-stem (d ∷ rest)

module _ {H : Type 0} (uri : List ℕ) (method : Method) where
  -- The route's pattern has no '*' at its end and is the URI.
  abbrev pub Exact : Route H → Type 0
  Exact r = (r.method ≡ method) × (is_wildcard r.pattern ≡ false) × (r.pattern ≡ uri)

  -- The route's pattern is the start of the URI, with a '*' behind it.
  abbrev pub Prefix : Route H → Type 0
  Prefix r =
      (r.method ≡ method)
      × (stem : List ℕ) × (rest : List ℕ) × (r.pattern ≡ stem ++ (42 ∷ []))
      × (uri ≡ stem ++ rest)

  Exact-of_match : (r : Route H) → matches_exactly uri method r ≡ true → Exact r
  unfolding matches_exactly
  Exact-of_match r h =
      let (m, rest) = &&-split (same_method r.method method) _ h in
      let (plain, text) = &&-split (not (is_wildcard r.pattern)) _ rest in
      (method_of_same r.method method m, ground arith, same_text-eq r.pattern uri text)

  match-of_Exact : (r : Route H) → Exact r → matches_exactly uri method r ≡ true
  unfolding matches_exactly
  match-of_Exact r (m, plain, text) =
      let same = same_method_self r.method method m in
      let equal : same_text r.pattern uri ≡ true = rw text (same_text_self uri) in ground arith

  Prefix-of_match : (r : Route H) → matches_prefix uri method r ≡ true → Prefix r
  unfolding matches_prefix
  Prefix-of_match r h =
      let (m, rest) = &&-split (same_method r.method method) _ h in
      let (star, text) = &&-split (is_wildcard r.pattern) _ rest in
      let n = length r.pattern - 1 in
      let start = same_text-eq (take n r.pattern) (take n uri) text in
      (
        method_of_same r.method method m,
        take n r.pattern,
        drop n uri,
        wildcard-stem r.pattern n star refl,
        sym (take-append-drop n uri) ∙ ap (λ t. t ++ drop n uri) (sym start),
      )

  match-of_Prefix : (r : Route H) → Prefix r → matches_prefix uri method r ≡ true
  unfolding matches_prefix
  match-of_Prefix r (m, stem, rest, pattern, starts) =
      let same = same_method_self r.method method m in
      let star : is_wildcard r.pattern ≡ true = rw pattern (is_wildcard-stem stem) in
      let size : length r.pattern - 1 ≡ length stem =
        omega (arith, ap length pattern, length-append stem (42 ∷ [])) in
      let front : take (length r.pattern - 1) r.pattern ≡ stem =
        ap₂ take size pattern ∙ take-append_self stem (42 ∷ []) (length stem) refl in
      let front' : take (length r.pattern - 1) uri ≡ stem =
        ap₂ take size starts ∙ take-append_self stem rest (length stem) refl in
      let equal : same_text (take (length r.pattern - 1) r.pattern)
            (take (length r.pattern - 1) uri)
          ≡ true =
        rw (front, front') (same_text_self stem) in
      ground arith

  -- The first route of a list that satisfies a test, with none before it that does.
  abbrev pub NoneOf : (Route H → Type 0) → List (Route H) → Type 0
  NoneOf P [] = Unit
  NoneOf P (r ∷ routes) = ¬ P r × NoneOf P routes

  pub record IsFirst (P : Route H → Type 0) (routes : List (Route H)) (r : Route H) : Type 0 where
    pub before : List (Route H)
    pub after : List (Route H)
    pub around : routes ≡ before ++ (r ∷ after)
    pub none_before : NoneOf P before
    pub fits : P r

  abbrev First : (Route H → Type 0) → List (Route H) → Option (Route H) → Type 0
  First P routes none = NoneOf P routes
  First P routes (some r) = IsFirst P routes r

  module _ (test : Route H → Bool) (P : Route H → Type 0)
      (sound : (r : Route H) → test r ≡ true → P r)
      (whole : (r : Route H) → P r → test r ≡ true) where
    later :
        (r : Route H) (routes : List (Route H)) (found : Option (Route H))
        → ¬ P r
        → First P routes found
        → First P (r ∷ routes) found
    later r routes none differs h = (differs, h)
    later r routes (some q) differs h = record {
      before = r ∷ h.before;
      after = h.after;
      around = ap (◌∷◌ r) h.around;
      none_before = (differs, h.none_before);
      fits = h.fits;
    }

    first_that-First : (routes : List (Route H)) → First P routes (first_that test routes)
    unfolding first_that
    first_that-First [] = tt
    first_that-First (r ∷ routes) = elim (Bool-cases (test r)) [
      | inl yes_it ↦
          rw (yes_it, first_that)
            (record {
              before = [];
              after = routes;
              around = refl;
              none_before = tt;
              fits = sound r yes_it;
            })
      | inr no_it ↦
          rw (no_it, first_that)
            (later r routes (first_that test routes)
              (λ p. let hit = whole r p in absurd (ground arith)) (first_that-First routes))
    ]

  -- What a search of the table may find.
  abbrev pub Chooses : List (Route H) → Option (Route H) → Type 0
  Chooses routes none = NoneOf Exact routes × NoneOf Prefix routes
  Chooses routes (some r) = IsFirst Exact routes r ⊎ (NoneOf Exact routes × IsFirst Prefix routes r)

  choose :
      (routes : List (Route H)) (exact prefix : Option (Route H))
      → First Exact routes exact
      → First Prefix routes prefix
      → Chooses routes (elim exact [ some r ↦ some r | none ↦ prefix ])
  choose routes (some r) prefix e p = inl e
  choose routes none (some r) e p = inr (e, p)
  choose routes none none e p = (e, p)

  -- Of the routes with the request's method, the search finds the one added last whose pattern is
  -- the URI and has no '*' at its end; without one, the one added last whose pattern is a start of
  -- the URI with a '*' behind it; and nothing only if no route is of either kind.
  pub find_route-Chooses : (routes : List (Route H)) → Chooses routes (find_route routes uri method)
  unfolding find_route
  find_route-Chooses routes =
      choose routes (first_that (matches_exactly uri method) routes)
        (first_that (matches_prefix uri method) routes)
        (first_that-First (matches_exactly uri method) Exact Exact-of_match match-of_Exact routes)
        (first_that-First (matches_prefix uri method) Prefix Prefix-of_match match-of_Prefix routes)
