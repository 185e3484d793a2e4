-- ===== src/Dispatcher/Order.antt =====
-- The order in which the dispatcher hands out the groups.
use red_o_lator.Base.{
  ℕ, ◌+◌, ◌-◌, ◌*◌, ◌/◌, ◌%◌, ◌^◌, ◌≤◌, ◌<◌, ◌≡◌, ◌≢◌, arith, refl, sym, ap, true, false, Option,
  some, ◌∙◌, length, ◌==◌, min, ok, ◌>>=◌, >>=-eq-ok, [],
}
use native.Mathlib.Nat.{div-add-mod', mod-lt, mul-le-mul_left, mul-le-mul_right}
use native.Mathlib.Decide.{dec_lt, ℕ_discrete}
use red_o_lator.WorkGroup.{
  WorkSize, KernelConfig, WorkGroup, get_ndrange_size, get_wg_size, init_workitems, init_wavefronts,
  wavefront_rounds,
}
use red_o_lator.Dispatcher.{Dispatcher, left, left_sizes, next_size, next_id, next_wg}

-- A size of the range and of the group in one dimension: neither is 0.
abbrev pub IsDivided : ℕ → ℕ → Type 0
IsDivided size wg = (0 < size) × (size < 2 ^ 64) × (0 < wg)

-- The number of groups in one dimension.
abbrev pub groups : ℕ → ℕ → ℕ
groups size wg = (size - 1) / wg + 1

module _ (size wg cur : ℕ) (d : IsDivided size wg) where
  quotient : (size - 1) / wg * wg + (size - 1) % wg ≡ size - 1
  quotient = div-add-mod' (size - 1) wg

  small : (size - 1) % wg < wg
  small = mod-lt (size - 1) (d.2)

  below : cur < groups size wg → cur * wg ≤ size - 1
  below h =
      omega (arith, quotient, mul-le-mul_right {m = cur} {n = (size - 1) / wg} wg (omega arith))

  left_lem : cur < groups size wg → left size cur wg ≡ size - cur * wg
  unfolding left
  left_lem h = let b = below h in omega arith

  last_test :
      cur < groups size wg
      → (size - cur * wg - min wg (size - cur * wg) == 0) ≡ (cur + 1 == groups size wg)
  last_test h = elim (dec_lt cur ((size - 1) / wg)) [
    | yes p ↦
        let next = mul-le-mul_right {m = cur + 1} {n = (size - 1) / wg} wg (omega arith) in
        let more : (cur + 1) * wg ≡ cur * wg + wg = omega arith in
        let big : wg < size - cur * wg = omega (arith, quotient, next, more) in ground (arith, big)
    | no p ↦
        let same : cur ≡ (size - 1) / wg = omega arith in
        let rest : size - cur * wg ≤ wg =
          omega (arith, quotient, small, ap (λ (t : ℕ). t * wg) same, d.0) in
        ground (arith, rest, same)
  ]

-- The dispatcher stands at group n: it counted n groups, and its ids number n with x running fastest.
abbrev pub IsAt : ℕ → ℕ → Dispatcher → ℕ → Type 0
IsAt width height dispatcher n =
    (dispatcher.dispatched_wg ≡ n)
    × (dispatcher.cur_id.x < width)
    × (dispatcher.cur_id.y < height)
    × (dispatcher.cur_id.x + width * (dispatcher.cur_id.y + height * dispatcher.cur_id.z) ≡ n)

step_x : (w h x y z n : ℕ) → x + w * (y + h * z) ≡ n → (x + 1) + w * (y + h * z) ≡ n + 1
step_x w h x y z n e = omega (arith, e)

step_y : (w h x y z n : ℕ) → x + 1 ≡ w → x + w * (y + h * z) ≡ n → 0 + w * (y + 1 + h * z) ≡ n + 1
step_y w h x y z n f e =
    let t : w * (y + 1 + h * z) ≡ w * (y + h * z) + w = grind arith in omega (arith, t, e, f)

step_z :
    (w h x y z n : ℕ)
    → x + 1 ≡ w
    → y + 1 ≡ h
    → x + w * (y + h * z) ≡ n
    → 0 + w * (0 + h * (z + 1)) ≡ n + 1
step_z w h x y z n f g e =
    let stride : h * (z + 1) ≡ h * z + h = grind arith in
    let inner : 0 + h * (z + 1) ≡ y + h * z + 1 = omega (arith, stride, g) in
    let outer : w * (y + h * z + 1) ≡ w * (y + h * z) + w = grind arith in
    omega (arith, ap (λ (t : ℕ). w * t) inner, outer, e, f)

z_below : (w h k x y z n : ℕ) → x + w * (y + h * z) ≡ n → n < w * (h * k) → z < k
z_below w h k x y z n e l = elim (dec_lt z k) [
  | yes p ↦ p
  | no p ↦
      let a = mul-le-mul_left {m = k} {n = z} h (omega arith) in
      let b = mul-le-mul_left {m = h * k} {n = y + h * z} w (omega (arith, a)) in
      absurd (omega (arith, b, e, l))
]

-- The range and the groups of a configuration fit each other in all three dimensions.
abbrev pub IsLaunchable : KernelConfig → Type 0
IsLaunchable config =
    let size = get_ndrange_size config in
    let wg = get_wg_size config in
    IsDivided size.x wg.x × IsDivided size.y wg.y × IsDivided size.z wg.z

-- The number of groups in a direction.
abbrev pub width : KernelConfig → ℕ
width config = groups (get_ndrange_size config).x (get_wg_size config).x

abbrev pub height : KernelConfig → ℕ
height config = groups (get_ndrange_size config).y (get_wg_size config).y

abbrev pub depth : KernelConfig → ℕ
depth config = groups (get_ndrange_size config).z (get_wg_size config).z

module _ (size wg cur : ℕ) (d : IsDivided size wg) (h : cur < groups size wg) where
  some_left : (left size cur wg == 0) ≡ false
  some_left =
      let b = below size wg cur d h in rw (left_lem size wg cur d h) (ground (arith, b, d.0))

  is_last : (left size cur wg - min wg (left size cur wg) == 0) ≡ (cur + 1 == groups size wg)
  is_last = rw (left_lem size wg cur d h) (last_test size wg cur d h)

eq_test : (a b : ℕ) → a ≡ b → (a == b) ≡ true
eq_test a b h = ground arith

ne_test : (a b : ℕ) → a ≢ b → (a == b) ≡ false
ne_test a b h = ground arith

-- Ids that number n in a range of that width and height.
abbrev pub Numbers : ℕ → ℕ → WorkSize → ℕ → Type 0
Numbers w h c n = (c.x < w) × (c.y < h) × (c.x + w * (c.y + h * c.z) ≡ n)

next_id-Numbers :
    (cur rest size : WorkSize) (w h n : ℕ)
    → (rest.x - size.x == 0) ≡ (cur.x + 1 == w)
    → (rest.y - size.y == 0) ≡ (cur.y + 1 == h)
    → Numbers w h cur n
    → Numbers w h (next_id cur rest size) (n + 1)
unfolding next_id
next_id-Numbers cur rest size w h n tx ty at =
    rw (tx, ty)
      (elim (ℕ_discrete (cur.x + 1) w) [
        | yes p ↦ rw (eq_test _ _ p) (elim (ℕ_discrete (cur.y + 1) h) [
          | yes q ↦
              rw (eq_test _ _ q) (omega arith, omega arith, step_z w h cur.x cur.y cur.z n p q at.2)
          | no q ↦
              rw (ne_test _ _ q)
                (omega arith, omega (arith, q), step_y w h cur.x cur.y cur.z n p at.2)
        ])
        | no p ↦ rw (ne_test _ _ p) (omega (arith, p), at.1, step_x w h cur.x cur.y cur.z n at.2)
      ])

module _ (d : Dispatcher) (n : ℕ) (fits : IsLaunchable d.kernel_config)
    (at : IsAt (width d.kernel_config) (height d.kernel_config) d n)
    (more : n < width d.kernel_config * (height d.kernel_config * depth d.kernel_config)) where
  z_inside : d.cur_id.z < depth d.kernel_config
  z_inside =
      z_below (width d.kernel_config) (height d.kernel_config) (depth d.kernel_config) d.cur_id.x
        d.cur_id.y d.cur_id.z n at.3 more

  fresh : WorkGroup
  fresh =
      init_workitems
        (record { group_size = next_size d; group_id = d.cur_id; wavefronts = []; work_items = [] })

  after : Dispatcher
  after = record d {
    cur_id = next_id d.cur_id (left_sizes d) (next_size d);
    dispatched_wg = d.dispatched_wg + 1;
  }

  next_wg_lem : next_wg d ≡ (init_wavefronts fresh d.kernel_config >>= λ wg'. ok (some wg', after))
  unfolding next_wg left_sizes fresh after
  next_wg_lem =
      rw
        (
          some_left _ _ d.cur_id.x fits.0 at.1,
          some_left _ _ d.cur_id.y fits.1 at.2,
          some_left _ _ d.cur_id.z fits.2 z_inside,
        )
        refl

  last_x : ((left_sizes d).x - (next_size d).x == 0) ≡ (d.cur_id.x + 1 == width d.kernel_config)
  unfolding left_sizes next_size
  last_x = is_last _ _ d.cur_id.x fits.0 at.1

  last_y : ((left_sizes d).y - (next_size d).y == 0) ≡ (d.cur_id.y + 1 == height d.kernel_config)
  unfolding left_sizes next_size
  last_y = is_last _ _ d.cur_id.y fits.1 at.2

  after-Numbers : Numbers (width d.kernel_config) (height d.kernel_config) after.cur_id (n + 1)
  unfolding after
  after-Numbers =
      next_id-Numbers d.cur_id (left_sizes d) (next_size d) _ _ n last_x last_y (at.1, at.2, at.3)

init_wavefronts-group_id :
    (wg wg' : WorkGroup) (config : KernelConfig)
    → init_wavefronts wg config ≡ ok wg'
    → wg'.group_id ≡ wg.group_id
unfolding init_wavefronts
init_wavefronts-group_id wg wg' config e =
    let (_, _, f) = >>=-eq-ok (wavefront_rounds wg config (length wg.work_items) 0) _ e in cc

-- For a configuration whose sizes are not 0, and a dispatcher that stands at group n of fewer than
-- all groups: a call of `next_wg` that returns gives a group and not the null pointer, the group has
-- the ids that number n with x running fastest, and the dispatcher then stands at group n + 1 with
-- its configuration and its number of groups unchanged.
pub next_wg-IsAt :
    (d d' : Dispatcher) (o : Option WorkGroup) (n : ℕ)
    → IsLaunchable d.kernel_config
    → IsAt (width d.kernel_config) (height d.kernel_config) d n
    → n < width d.kernel_config * (height d.kernel_config * depth d.kernel_config)
    → next_wg d ≡ ok (o, d')
    → (wg : WorkGroup) × (o ≡ some wg)
      × Numbers (width d.kernel_config) (height d.kernel_config) wg.group_id n
      × IsAt (width d.kernel_config) (height d.kernel_config) d' (n + 1)
      × (d'.kernel_config ≡ d.kernel_config)
      × (d'.wg_amount ≡ d.wg_amount)
unfolding fresh after init_workitems
next_wg-IsAt d d' o n fits at more e =
    let (wg, made, given) =
      >>=-eq-ok (init_wavefronts (fresh d n fits at more) d.kernel_config) _
        (sym (next_wg_lem d n fits at more) ∙ e) in
    let ids = init_wavefronts-group_id (fresh d n fits at more) wg d.kernel_config made in
    let next = after-Numbers d n fits at more in
    let same : d' ≡ after d n fits at more = cc in
    let some_wg : o ≡ some wg = cc in
    let counted : d.dispatched_wg + 1 ≡ n + 1 = omega (arith, at.0) in
    (
      wg,
      some_wg,
      rw ids (at.1, at.2, at.3),
      rw same (counted, next.0, next.1, next.2),
      ap (λ (t : Dispatcher). t.kernel_config) same,
      ap (λ (t : Dispatcher). t.wg_amount) same,
    )
