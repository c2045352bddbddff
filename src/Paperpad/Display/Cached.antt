-- ===== src/Paperpad/Display/Cached.antt =====
-- The cached frame is the last one shown, if it still fits the viewport.
use rust_x11_hello.Prelude.{ℕ, ◌≡◌, ◌↔◌, refl, arith, List, [], ◌∷◌, false, Option, none, some, ap}
use rust_x11_hello.Paperpad.Display.{
  RemoteFrame, CachedRemoteFrame, RemoteFrameCache, empty_cache, replace, differs, take_mismatched,
  invalidate_mismatched,
}

-- What a backend does with its cache.
pub data CacheOp {ℓ} (T : Type ℓ) : Type ℓ where
  presented : RemoteFrame → T → CacheOp T
  viewport_set : ℕ × ℕ → CacheOp T

unfoldable pub cache_step {ℓ} : {T : Type ℓ} → RemoteFrameCache T → CacheOp T → RemoteFrameCache T
cache_step cache (presented frame payload) = replace cache frame payload
cache_step cache (viewport_set viewport) = (invalidate_mismatched cache viewport).1

-- The cache after operations, the latest one first
unfoldable pub cache_after {ℓ} : {T : Type ℓ} → List (CacheOp T) → RemoteFrameCache T
cache_after {T = T} [] = empty_cache T
cache_after (op ∷ past) = cache_step (cache_after past) op

-- What is kept of a frame
abbrev pub cached {ℓ} : {T : Type ℓ} → RemoteFrame → T → CachedRemoteFrame T
cached f payload = record {
  frame_id = f.frame_id;
  width = f.width;
  height = f.height;
  pixel_format = f.pixel_format;
  stride = f.stride;
  payload = payload;
}

-- `c` was presented last, and every viewport set since then has its dimensions.
pub data IsShown {ℓ} {T : Type ℓ} (c : CachedRemoteFrame T) : List (CacheOp T) → Type ℓ where
  last :
      {past : List (CacheOp T)} (f : RemoteFrame) (payload : T)
      → cached f payload ≡ c
      → IsShown c (presented f payload ∷ past)
  fits :
      {past : List (CacheOp T)} (v : ℕ × ℕ)
      → differs c v ≡ false
      → IsShown c past
      → IsShown c (viewport_set v ∷ past)

take_mismatched_iff {ℓ} :
    {T : Type ℓ} (o : Option (CachedRemoteFrame T)) (v : ℕ × ℕ) (c : CachedRemoteFrame T)
    → ((take_mismatched o v).1 ≡ some c) ↔ ((o ≡ some c) × (differs c v ≡ false))
unfolding take_mismatched
take_mismatched_iff none v c = (λ e. absurd (ground arith), λ (e, f). absurd (ground arith))
take_mismatched_iff (some d) v c = (λ e. ground arith, λ (e, f). ground arith)

viewport_set-current {ℓ} :
    {T : Type ℓ} (past : List (CacheOp T)) (v : ℕ × ℕ)
    → (cache_after (viewport_set v ∷ past)).current
      ≡ (take_mismatched (cache_after past).current v).1
unfolding cache_after cache_step invalidate_mismatched
viewport_set-current past v = refl

presented-current {ℓ} :
    {T : Type ℓ} (past : List (CacheOp T)) (f : RemoteFrame) (payload : T)
    → (cache_after (presented f payload ∷ past)).current ≡ some (cached f payload)
unfolding cache_after cache_step replace
presented-current past f payload = refl

IsShown-current {ℓ} :
    {T : Type ℓ} (c : CachedRemoteFrame T) {past : List (CacheOp T)}
    → IsShown c past
    → (cache_after past).current ≡ some c
IsShown-current c (last {past} f payload e) = rw (presented-current past f payload) (ap some e)
IsShown-current c (fits {past} v same shown) =
    rw (viewport_set-current past v)
      ((take_mismatched_iff (cache_after past).current v c).1 (IsShown-current c shown, same))

current-IsShown {ℓ} :
    {T : Type ℓ} (c : CachedRemoteFrame T) (past : List (CacheOp T))
    → (cache_after past).current ≡ some c
    → IsShown c past
current-IsShown c [] e = absurd (unfold cache_after in ground arith)
current-IsShown c (presented f payload ∷ past) e =
    last f payload (ground (arith, presented-current past f payload))
current-IsShown c (viewport_set v ∷ past) e =
    let (before, same) =
      (take_mismatched_iff (cache_after past).current v c).0
        (rw (viewport_set-current past v) at e) in
    fits v same (current-IsShown c past before)

-- After any operations a frame is cached exactly if it was presented last and no viewport of other
-- dimensions was set since; what a backend keeps of it is what it gave with that frame.
pub current_iff {ℓ} :
    {T : Type ℓ} (past : List (CacheOp T)) (c : CachedRemoteFrame T)
    → ((cache_after past).current ≡ some c) ↔ IsShown c past
current_iff past c = (current-IsShown c past, IsShown-current c)
