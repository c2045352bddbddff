-- ===== src/Paperpad/Mxcfb/Metadata/Accepted.antt =====
-- Which metadata is accepted, and what is made of it.
use native.Mathlib.Decide.{ℕ_discrete}
use rust_x11_hello.Prelude.{
  ℕ, ◌-◌, ◌≤◌, ◌<◌, ◌≡◌, ◌≢◌, ◌↔◌, ◌⊎◌, ◌∙◌, inl, inr, refl, sym, ap, arith, List, [], ◌∷◌, ◌++◌,
  All, true, ok, some,
}
use rust_x11_hello.Paperpad.Ui.Screen.{ScreenLayout, new_layout, partition}
use rust_x11_hello.Paperpad.Mxcfb.Layout.Mapping.{IsU32Geometry, IsMapping, visible_mapping_len_lem}
use rust_x11_hello.Paperpad.Mxcfb.Pixels.{validate_format}
use rust_x11_hello.Paperpad.Mxcfb.Metadata.{
  FbFixScreeninfo, FbVarScreeninfo, FramebufferInfo, driver_name, same_bytes, hwtcon_v2,
  geometry_of, spec_of, kernel_screen, from_kernel,
}
use rust_x11_hello.Paperpad.Mxcfb.Metadata.Valid.{from_kernel-IsInfo, kernel_screen-tall}
use rust_x11_hello.Paperpad.Ui.Screen.Partition.{new_layout-size}

-- The bytes are the name, up to the end or to a zero.
abbrev pub IsNamed : List ℕ → List ℕ → Type 0
IsNamed name id = (id ≡ name) ⊎ ((rest : List ℕ) × (id ≡ name ++ (0 ∷ rest)))

IsNamed-cons : (x : ℕ) {name id : List ℕ} → IsNamed name id → IsNamed (x ∷ name) (x ∷ id)
IsNamed-cons x (inl e) = inl (ap (λ l. x ∷ l) e)
IsNamed-cons x (inr (rest, e)) = inr (rest, ap (λ l. x ∷ l) e)

driver_ended : (id : List ℕ) → driver_name (0 ∷ id) ≡ []
unfolding driver_name
driver_ended id = refl

driver_cons : (b : ℕ) (id : List ℕ) → b ≢ 0 → driver_name (b ∷ id) ≡ b ∷ driver_name id
unfolding driver_name
driver_cons b id ne = ground arith

same_head :
    (x y : ℕ) (xs ys : List ℕ)
    → same_bytes (x ∷ xs) (y ∷ ys) ≡ true
    → (x ≡ y) × (same_bytes xs ys ≡ true)
unfolding same_bytes
same_head x y xs ys e = (ground arith, ground arith)

name_sound : (name id : List ℕ) → same_bytes (driver_name id) name ≡ true → IsNamed name id
name_sound [] [] e = inl refl
name_sound [] (b ∷ id) e = elim (ℕ_discrete b 0) [
  | yes zero_byte ↦ inr (id, ap (λ b. b ∷ id) zero_byte)
  | no ne ↦ absurd (unfold same_bytes in ground (arith, driver_cons b id ne, e))
]
name_sound (x ∷ name) [] e = absurd (unfold same_bytes driver_name in ground (arith, e))
name_sound (x ∷ name) (b ∷ id) e = elim (ℕ_discrete b 0) [
  | yes zero_byte ↦
      absurd (unfold same_bytes in ground (arith, driver_ended id, rw zero_byte at (e)))
  | no ne ↦
      let (here, there) = same_head b x (driver_name id) name (rw (driver_cons b id ne) at (e)) in
      rw here (IsNamed-cons x (name_sound name id there))
]

name_exact : (name : List ℕ) → All (λ b. b ≢ 0) name → same_bytes (driver_name name) name ≡ true
unfolding same_bytes
name_exact [] h = unfold driver_name in refl
name_exact (x ∷ name) h = rw (driver_cons x name h.0) (ground (arith, name_exact name h.1))

name_ended :
    (name rest : List ℕ)
    → All (λ b. b ≢ 0) name
    → same_bytes (driver_name (name ++ (0 ∷ rest))) name ≡ true
unfolding same_bytes
name_ended [] rest h = rw (driver_ended rest) refl
name_ended (x ∷ name) rest h =
    rw (driver_cons x (name ++ (0 ∷ rest)) h.0) (ground (arith, name_ended name rest h.1))

hwtcon-nonzero : All (λ b. b ≢ 0) hwtcon_v2
hwtcon-nonzero = (
  λ e. ground arith,
  (
    λ e. ground arith,
    (
      λ e. ground arith,
      (
        λ e. ground arith,
        (
          λ e. ground arith,
          (λ e. ground arith, (λ e. ground arith, (λ e. ground arith, (λ e. ground arith, tt)))),
        ),
      ),
    ),
  ),
)

name_complete : {id : List ℕ} → IsNamed hwtcon_v2 id → same_bytes (driver_name id) hwtcon_v2 ≡ true
name_complete (inl e) = rw e (name_exact hwtcon_v2 hwtcon-nonzero)
name_complete (inr (rest, e)) = rw e (name_ended hwtcon_v2 rest hwtcon-nonzero)

-- The screen of so many pixels: the system strip takes its last 72 rows.
abbrev pub screen_of : ℕ → ℕ → ScreenLayout
screen_of width height = record {
  physical_size = (width, height);
  remote_viewport = record { x = 0; y = 0; width = width; height = height - 72 };
  system_ui_region = record { x = 0; y = height - 72; width = width; height = 72 };
}

layout_of :
    (w h : ℕ) → 0 < w → w ≤ 32767 → 72 < h → h ≤ 32767 → new_layout w h ≡ some (screen_of w h)
unfolding new_layout partition
layout_of w h pos wide tall high = ground arith

-- The metadata can be used: the display driver, an upright screen of a size that the layout can hold, a
-- page that lies in the virtual screen and in the memory, and packed bytes of gray.
pub record IsAccepted (fixed : FbFixScreeninfo) (variable : FbVarScreeninfo) (len : ℕ)
    : Type 0 where
  pub driver : IsNamed hwtcon_v2 fixed.id
  pub upright : variable.rotate ≡ 0
  pub columns : (0 < variable.xres) × (variable.xres ≤ 32767)
  pub rows : (72 < variable.yres) × (variable.yres ≤ 32767)
  pub mapping : IsMapping (geometry_of fixed variable) len
  pub format :
      (fixed.kind ≡ 0)
      × (fixed.visual ≡ 1)
      × (variable.bits_per_pixel ≡ 8)
      × (variable.grayscale ≡ 1)
      × (variable.nonstd ≡ 0)

kernel_screen-eq :
    (fixed : FbFixScreeninfo) (variable : FbVarScreeninfo) {l : ScreenLayout}
    → kernel_screen fixed variable ≡ ok l
    → (same_bytes (driver_name fixed.id) hwtcon_v2 ≡ true) × (variable.rotate ≡ 0)
unfolding kernel_screen
kernel_screen-eq fixed variable e = (ground arith, ground arith)

kernel_screen-accepted :
    (fixed : FbFixScreeninfo) (variable : FbVarScreeninfo) {len : ℕ}
    → IsAccepted fixed variable len
    → kernel_screen fixed variable ≡ ok (screen_of variable.xres variable.yres)
unfolding kernel_screen
kernel_screen-accepted fixed variable v =
    let layout = layout_of variable.xres variable.yres v.columns.0 v.columns.1 v.rows.0 v.rows.1 in
    let named = name_complete v.driver in
    ground (arith, layout, named, v.upright, v.columns, v.rows)

validate_format-accepted :
    (fixed : FbFixScreeninfo) (variable : FbVarScreeninfo) {len : ℕ}
    → IsAccepted fixed variable len
    → validate_format (spec_of fixed variable) ≡ ok tt
unfolding validate_format
validate_format-accepted fixed variable v = ground (arith, v.format)

-- What is made of accepted metadata
abbrev pub info_of : FbFixScreeninfo → FbVarScreeninfo → ℕ → FramebufferInfo
info_of fixed variable len = record {
  geometry = geometry_of fixed variable;
  spec = spec_of fixed variable;
  screen = screen_of variable.xres variable.yres;
  mapping_len = len;
}

from_kernel-accepted :
    (fixed : FbFixScreeninfo) (variable : FbVarScreeninfo) {len : ℕ}
    → IsU32Geometry (geometry_of fixed variable)
    → IsAccepted fixed variable len
    → from_kernel fixed variable ≡ ok (info_of fixed variable len)
unfolding from_kernel
from_kernel-accepted fixed variable {len} u v =
    rw
      (
        kernel_screen-accepted fixed variable v,
        (visible_mapping_len_lem (geometry_of fixed variable) len u).0.1 v.mapping,
        validate_format-accepted fixed variable v,
      )
      refl

from_kernel-fields :
    (fixed : FbFixScreeninfo) (variable : FbVarScreeninfo) {i : FramebufferInfo}
    → from_kernel fixed variable ≡ ok i
    → (i.geometry ≡ geometry_of fixed variable)
      × (kernel_screen fixed variable ≡ ok i.screen)
      × (i.spec ≡ spec_of fixed variable)
unfolding from_kernel
from_kernel-fields fixed variable e = (ground arith, ground arith, ground arith)

format-eq :
    (fixed : FbFixScreeninfo) (variable : FbVarScreeninfo)
    → validate_format (spec_of fixed variable) ≡ ok tt
    → (fixed.kind ≡ 0)
      × (fixed.visual ≡ 1)
      × (variable.bits_per_pixel ≡ 8)
      × (variable.grayscale ≡ 1)
      × (variable.nonstd ≡ 0)
unfolding validate_format
format-eq fixed variable e = (ground arith, ground arith, ground arith, ground arith, ground arith)

from_kernel-IsAccepted :
    (fixed : FbFixScreeninfo) (variable : FbVarScreeninfo) {i : FramebufferInfo}
    → IsU32Geometry (geometry_of fixed variable)
    → from_kernel fixed variable ≡ ok i
    → IsAccepted fixed variable i.mapping_len
from_kernel-IsAccepted fixed variable {i} u e =
    let is = from_kernel-IsInfo fixed variable e in
    let (copied, screen, same) = from_kernel-fields fixed variable e in
    let (driver, upright) = kernel_screen-eq fixed variable screen in
    let (layout, wide, high, strip, above) = kernel_screen-tall fixed variable screen in
    record {
      driver = name_sound hwtcon_v2 fixed.id driver;
      upright = upright;
      columns = ((new_layout-size variable.xres variable.yres layout).0, wide);
      rows = (ground (arith, is.tall, copied), high);
      mapping =
          (visible_mapping_len_lem (geometry_of fixed variable) i.mapping_len u).0.0
            (rw copied at (is.mapping));
      format = format-eq fixed variable (rw same at (is.format));
    }

-- Of metadata of `u32`s, what `from_kernel` returns: metadata is accepted exactly if the driver is
-- `hwtcon_v2`, the screen is not rotated, its dimensions fit, with rows above the system strip, the
-- visible page lies in the virtual screen, the lines and the memory, and the pixels are packed bytes of
-- gray. The result has the geometry that the kernel has filled in, the same as a specification, the
-- screen whose last 72 rows are the system strip, and a mapping that ends with the visible page.
pub from_kernel_iff :
    (fixed : FbFixScreeninfo) (variable : FbVarScreeninfo) (i : FramebufferInfo)
    → IsU32Geometry (geometry_of fixed variable)
    → (from_kernel fixed variable ≡ ok i)
      ↔ (IsAccepted fixed variable i.mapping_len × (i ≡ info_of fixed variable i.mapping_len))
from_kernel_iff fixed variable i u = (
  λ e.
      let v = from_kernel-IsAccepted fixed variable u e in
      (v, cc (e, from_kernel-accepted fixed variable u v)),
  λ (v, e). from_kernel-accepted fixed variable u v ∙ ap ok (sym e),
)
