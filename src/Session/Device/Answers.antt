-- ===== src/Session/Device/Answers.antt =====
-- What the calls that set a device up give.
use hardware_floral_codec.Common.{
  ℕ, zero, suc, ◌+◌, ◌≡◌, ◌≢◌, refl, Bool, true, false, ◌&&◌, Option, some, List, [], ◌∷◌, ◌++◌,
  arith, ◌==◌, length, length-append,
}
use hardware_floral_codec.Session.{C2Status, c2_ok}
use hardware_floral_codec.Session.Outcome.{
  Outcome, returns, fails, answered, Holds, Ensures, bind-Ensures, then-Ensures, mono-Ensures,
  pure-Ensures, demand-Ensures, answer-Ensures,
}
use hardware_floral_codec.Session.Device.{
  Queue, Memory, Format, Device, call, set_format, request_buffers, map_buffer, keep_mapped,
  map_buffers, stream_on,
}

-- An error is one.
abbrev pub IsError : {X : Type 0} → C2Status → X → Type 0
IsError e x = e ≢ c2_ok

module _ {S A : Type 0} where
  -- The answer of a call that succeeds.
  pub call-Ensures : (r : S × Option A) → Ensures (λ a s. r.1 ≡ some a) IsError (call r)
  call-Ensures (s, r) = answer-Ensures s r (λ a e. e) (λ e. cc)

module _ {S : Type 0} (d : Device S) where
  -- The format is one that the device answers to the call, with the pixel format and one plane.
  pub record IsAnswered (queue : Queue) (pixel_format width height stride size : ℕ) (f : Format)
      : Type 0 where
    pub before : S
    pub answered_so : (d.s_fmt queue pixel_format width height stride size before).1 ≡ some f
    pub same_pixels : f.pixelformat ≡ pixel_format
    pub one_plane : f.num_planes ≡ 1

  pub set_format-IsAnswered :
      (queue : Queue) (pixel_format width height stride size : ℕ) (s : S)
      → Ensures
          (λ f s'. IsAnswered queue pixel_format width height stride size f)
          IsError
          (set_format d queue pixel_format width height stride size s)
  unfolding set_format
  set_format-IsAnswered queue pixel_format width height stride size s =
      bind-Ensures _ _ _ _ (call-Ensures (d.s_fmt queue pixel_format width height stride size s))
        (λ f s1 e.
          then-Ensures (λ u s2. (f.pixelformat == pixel_format && f.num_planes == 1) ≡ true) _ _ _
            (demand-Ensures _ _ _ (λ h. h) (λ q. cc))
            (λ u s2 h. pure-Ensures _ _ (record {
              before = s;
              answered_so = e;
              same_pixels = ground arith;
              one_plane = ground arith;
            })))

  pub request_buffers-ne-zero :
      (queue : Queue) (memory : Memory) (wanted : ℕ) (s : S)
      → wanted ≢ 0
      → Ensures (λ count s'. count ≢ 0) IsError (request_buffers d queue memory wanted s)
  unfolding request_buffers
  request_buffers-ne-zero queue memory wanted s ne =
      bind-Ensures _ _ _ _ (call-Ensures (d.reqbufs queue memory wanted s)) (λ count s1 e.
        then-Ensures (λ u s2. count ≢ 0) _ _ _ (demand-Ensures _ _ _ (λ h. ground arith) (λ q. cc))
          (λ u s2 h. pure-Ensures _ _ h))

  map_buffer-Ensures :
      (queue : Queue) (index : ℕ) (s : S)
      → Ensures (λ bytes s'. Unit) IsError (map_buffer d queue index s)
  map_buffer-Ensures queue index s =
      bind-Ensures _ _ _ _ (call-Ensures (d.querybuf queue index s)) (λ found s1 e.
        mono-Ensures (call-Ensures (d.mmap found.0 found.1 s1)) (λ bytes s2 q. tt) (λ e s2 q. q))

  -- What a mapping of some more buffers leaves.
  abbrev pub OnMapped : ℕ → S × List (List ℕ) × Outcome (Unit {0}) → Type 0
  OnMapped count (s, buffers, returns u) = length buffers ≡ count
  OnMapped count (s, buffers, fails e) = e ≢ c2_ok

  keep_mapped-OnMapped :
      (count : ℕ) (loop : List (List ℕ) → S → S × List (List ℕ) × Outcome (Unit {0}))
      (buffers : List (List ℕ)) (r : S × Outcome (List ℕ))
      → Holds (λ bytes s'. Unit) IsError r
      → ((bytes : List ℕ) (s : S) → OnMapped count (loop (buffers ++ (bytes ∷ [])) s))
      → OnMapped count (keep_mapped d loop buffers r)
  keep_mapped-OnMapped count loop buffers (s, returns bytes) h k = k bytes s
  keep_mapped-OnMapped count loop buffers (s, fails e) h k = h

  pub map_buffers-OnMapped :
      (queue : Queue) (n index count : ℕ) (buffers : List (List ℕ)) (s : S)
      → length buffers + n ≡ count
      → OnMapped count (map_buffers d queue n index buffers s)
  unfolding map_buffers
  map_buffers-OnMapped queue zero index count buffers s h = omega arith
  map_buffers-OnMapped queue (suc n) index count buffers s h =
      keep_mapped-OnMapped count (map_buffers d queue n (suc index)) buffers
        (map_buffer d queue index s) (map_buffer-Ensures queue index s).holds
        (λ bytes s'.
          map_buffers-OnMapped queue n (suc index) count (buffers ++ (bytes ∷ [])) s'
            (omega (arith, length-append buffers (bytes ∷ []))))

  -- A queue is streaming behind its start, or the start fails.
  abbrev pub OnStarted : S × Bool × Outcome (Unit {0}) → Type 0
  OnStarted (s, streaming, returns u) = streaming ≡ true
  OnStarted (s, streaming, fails e) = e ≢ c2_ok

  started-OnStarted : (s : S) (b : Bool) → OnStarted (s, b, answered b)
  started-OnStarted s true = refl
  started-OnStarted s false = λ q. cc

  pub stream_on-OnStarted :
      (queue : Queue) (streaming : Bool) (s : S) → OnStarted (stream_on d queue streaming s)
  unfolding stream_on
  stream_on-OnStarted queue true s = refl
  stream_on-OnStarted queue false s =
      started-OnStarted (d.stream_on queue s).0 (d.stream_on queue s).1
