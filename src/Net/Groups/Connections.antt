-- ===== src/Net/Groups/Connections.antt =====
-- What `connect` and `disconnect` of one server leave (tester1/group.go).
use Prim.Native.String.{String}
use my.Prelude.{
  ℕ, ◌<◌, ◌≡◌, refl, sym, ap, ◌∙◌, Bool, true, false, ◌&&◌, ◌||◌, Bool-cases, inl, inr, Option,
  Option-cases, some, List, [], ◌∷◌, arith, ◌==◌, ==→≡, if◌then◌else◌, ltb, length, get_elem?,
  get_or, set, length-set, get_or-set_self, get_or-set_ne, get_elem?-eq_some, Returns, Returns-map,
  Returns-bind, ◌>>=◌, lt→ltb,
}
use my.Net.Groups.{
  ServerGrp, cut, is_nil, end_name, switch, each, if_connected, set_connected, attach, disconnect,
}
use my.Net.Groups.Links.{
  mem, any, AllBelow, IsDistinct, IsWired, on, Leaves, IsWired-move, switch-Leaves, each-Leaves,
}

names-here :
    (names : List String) (j : ℕ) (x : String) → get_elem? names j ≡ some x → is_nil names ≡ false
names-here [] j x h = absurd (cc h)
names-here (y ∷ names) j x h = refl

any-column :
    (up : ℕ → Bool) (i x y : ℕ) (js : List ℕ)
    → any (λ j. up j && (x == j && y == i)) js ≡ (mem x js && (up x && y == i))
any-column up i x y [] = refl
any-column up i x y (j ∷ js) = elim (Bool-cases (x == j)) [
  | inl e ↦ let p : x ≡ j = ==→≡ x j e in rw (sym p) (ground (arith, any-column up i x y js))
  | inr e ↦ ground (arith, any-column up i x y js, e)
]

any-row :
    (up : ℕ → Bool) (i x y : ℕ) (js : List ℕ)
    → any (λ j. up j && (x == i && y == j)) js ≡ (mem y js && (up y && x == i))
any-row up i x y [] = refl
any-row up i x y (j ∷ js) = elim (Bool-cases (y == j)) [
  | inl e ↦ let p : y ≡ j = ==→≡ y j e in rw (sym p) (ground (arith, any-row up i x y js))
  | inr e ↦ ground (arith, any-row up i x y js, e)
]

-- The ends to and from a server `i`, and the servers of a list that are connected.
abbrev pub joined : (ℕ → Bool) → ℕ → List ℕ → ℕ → ℕ → Bool
joined live i to x y = (mem x to && (live x && y == i)) || (mem y to && (live y && x == i))

pub get_or-set :
    (a : List Bool) (i : ℕ) (b : Bool) (x : ℕ)
    → i < length a
    → get_or (set a i b) x false ≡ (if x == i then b else get_or a x false)
get_or-set a i b x h = elim (Bool-cases (x == i)) [
  | inl e ↦ let p : x ≡ i = ==→≡ x i e in rw (e, p) (get_or-set_self a i b false h)
  | inr e ↦ rw e (get_or-set_ne a {i = i} {j = x} b false (λ p. ground (arith, e, p)))
]

module _ {S : Type 0} (n : ℕ) (name : ℕ → ℕ → String) (distinct : IsDistinct name) where
  abbrev pub up : ServerGrp S → ℕ → Bool
  up sg x = get_or sg.connected x false

  set_connected-Leaves :
      (i : ℕ) (b : Bool) (sg : ServerGrp S)
      → IsWired n name sg
      → i < n
      → Returns (set_connected i b sg) (Leaves n name (on n name sg) (set sg.connected i b) sg)
  unfolding set_connected
  set_connected-Leaves i b sg w h =
      let t : ltb i (length sg.connected) ≡ true = lt→ltb _ _ (rw w.size h) in
      rw t record { links = λ x y. refl; connected = refl; srvs = refl }

  if_connected-Leaves :
      (i j : ℕ) (k l : ℕ) (sg : ServerGrp S) (c : List Bool)
      → IsWired n name sg
      → sg.connected ≡ c
      → j < n
      → k < n
      → l < n
      → Returns (if_connected j (switch true k l) sg) (
          Leaves n name
            (λ x y. if get_or c j false && (x == k && y == l) then true else on n name sg x y)
            sg.connected
            sg)
  unfolding if_connected
  if_connected-Leaves i j k l sg c w e hj hk hl =
      let g : get_elem? sg.connected j ≡ some (get_or c j false) =
        get_elem?-eq_some sg.connected j false (rw w.size hj)
        ∙ ap (λ a. some (get_or a j false)) e in
      rw g (elim (Bool-cases (get_or c j false)) [
        | inl t ↦ rw t (switch-Leaves n name distinct true k l sg w hk hl)
        | inr f ↦ rw f record { links = λ x y. refl; connected = refl; srvs = refl }
      ])

  -- Two loops one after the other.
  two_loops :
      (b : Bool) (live : ℕ → Bool) (i : ℕ) (to : List ℕ) (sg sg₁ sg₂ sg₃ : ServerGrp S)
      (c : List Bool)
      → Leaves n name (on n name sg) c sg sg₁
      → Leaves n name
          (λ x y. if any (λ j. live j && (x == i && y == j)) to then b else on n name sg₁ x y)
          sg₁.connected
          sg₁
          sg₂
      → Leaves n name
          (λ x y. if any (λ j. live j && (x == j && y == i)) to then b else on n name sg₂ x y)
          sg₂.connected
          sg₂
          sg₃
      → Leaves n name (λ x y. if joined live i to x y then b else on n name sg x y) c sg sg₃
  two_loops b live i to sg sg₁ sg₂ sg₃ c l m k = record {
    links = λ x y.
        k.links x y
        ∙ ground (arith, l.links x y, m.links x y, any-row live i x y to, any-column live i x y to);
    connected = k.connected ∙ m.connected ∙ l.connected;
    srvs = k.srvs ∙ m.srvs ∙ l.srvs;
  }

  module _ (b : Bool) (live : ℕ → Bool) (i : ℕ) (to : List ℕ) (sg : ServerGrp S)
      (w : IsWired n name sg) (hi : i < n) (below : AllBelow n to)
      (f g : ℕ → ServerGrp S → Option (ServerGrp S)) (mark : Bool)
      (f_round : (j : ℕ) (sg' : ServerGrp S)
        → IsWired n name sg'
        → sg'.connected ≡ set sg.connected i mark
        → j < n
        → Returns (f j sg') (
            Leaves n name
              (λ x y. if live j && (x == i && y == j) then b else on n name sg' x y)
              sg'.connected
              sg'))
      (g_round : (j : ℕ) (sg' : ServerGrp S)
        → IsWired n name sg'
        → sg'.connected ≡ set sg.connected i mark
        → j < n
        → Returns (g j sg') (
            Leaves n name
              (λ x y. if live j && (x == j && y == i) then b else on n name sg' x y)
              sg'.connected
              sg')) where
    abbrev After : ServerGrp S → Type 0
    After =
        Leaves n name (λ x y. if joined live i to x y then b else on n name sg x y)
          (set sg.connected i mark) sg

    marked_loops :
        Returns (do sg₁ ← set_connected i mark sg; sg₂ ← each f to sg₁; each g to sg₂) After
    marked_loops =
        Returns-bind (Leaves n name (on n name sg) (set sg.connected i mark) sg) After _ _
          (set_connected-Leaves i mark sg w hi)
          (λ sg₁ l.
            let w₁ =
              IsWired-move n name distinct sg sg₁ w l.srvs
                (ap length l.connected ∙ length-set sg.connected i mark ∙ w.size) in
            Returns-bind
              (Leaves n name
                (λ x y. if any (λ j. live j && (x == i && y == j)) to then b else on n name sg₁ x y)
                sg₁.connected sg₁)
              After _ _
              (each-Leaves n name distinct b f (λ j x y. live j && (x == i && y == j))
                (set sg.connected i mark) f_round to sg₁ w₁ l.connected below)
              (λ sg₂ m.
                let w₂ =
                  IsWired-move n name distinct sg₁ sg₂ w₁ m.srvs
                    (ap length m.connected ∙ w₁.size) in
                Returns-map {Q = After} _
                  (λ sg₃ k. two_loops b live i to sg sg₁ sg₂ sg₃ (set sg.connected i mark) l m k)
                  (each-Leaves n name distinct b g (λ j x y. live j && (x == j && y == i))
                    (set sg.connected i mark) g_round to sg₂ w₂ (m.connected ∙ l.connected) below)))

  pub attach-Leaves :
      (i : ℕ) (to : List ℕ) (sg : ServerGrp S)
      → IsWired n name sg
      → i < n
      → AllBelow n to
      → Returns (attach i to sg) (
          Leaves n name
            (λ x y.
              if joined (λ z. get_or (set sg.connected i true) z false) i to x y
              then true
              else on n name sg x y)
            (set sg.connected i true)
            sg)
  unfolding attach
  attach-Leaves i to sg w hi below =
      marked_loops true (λ z. get_or (set sg.connected i true) z false) i to sg w hi below _ _ true
        (λ j sg' w' c h. if_connected-Leaves i j i j sg' _ w' c h hi h)
        (λ j sg' w' c h. if_connected-Leaves i j j i sg' _ w' c h h hi)

  cut-Leaves :
      (i j : ℕ) (sg : ServerGrp S)
      → IsWired n name sg
      → i < n
      → j < n
      → Returns (cut i j sg) (
          Leaves n name
            (λ x y. if x == i && y == j then false else on n name sg x y)
            sg.connected
            sg)
  unfolding cut end_name
  cut-Leaves i j sg w p q = elim (Option-cases (get_elem? sg.srvs i)) [
    | inl e ↦ absurd (cc (rw e at (w.rows i j p q)))
    | inr (s, e) ↦
        let named : get_elem? s.end_names j ≡ some (name i j) = rw e at (w.rows i j p q) in
        rw (e, names-here s.end_names j (name i j) named)
          (switch-Leaves n name distinct false i j sg w p q)
  ]

  pub disconnect-Leaves :
      (i : ℕ) (from : List ℕ) (sg : ServerGrp S)
      → IsWired n name sg
      → i < n
      → AllBelow n from
      → Returns (disconnect i from sg) (
          Leaves n name
            (λ x y. if joined (λ z. true) i from x y then false else on n name sg x y)
            (set sg.connected i false)
            sg)
  unfolding disconnect
  disconnect-Leaves i from sg w hi below =
      marked_loops false (λ z. true) i from sg w hi below _ _ false
        (λ j sg' w' c h. cut-Leaves i j sg' w' hi h) (λ j sg' w' c h. cut-Leaves j i sg' w' h hi)
