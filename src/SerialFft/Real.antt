-- ===== src/SerialFft/Real.antt =====
-- `fft_real` and `ifft_real` of fft.c.
use sql_code.Common.{ℕ, ◌+◌, ◌-◌, ◌*◌, ◌/◌, for_up, get_or}
use sql_code.Fourier.{Double, Complex}
use sql_code.FftUtils.{floor_log2_32}
use sql_code.SerialFft.{TrigTables, Turning, set_real, set_imag, turned, pair_butterfly, serial_fft}

module _ (D : Double) where
  open D use {R, of_ℕ, add, sub, div, neg}

  -- A round of the loop that separates the numbers of even and of odd index.
  unfoldable pub pack_round : ℕ → (ℕ → Complex R) → ℕ → Complex R
  pack_round i x = let y = set_real x i (x (i * 2)).real in set_imag y i (y (i * 2 + 1)).real

  -- The body of the loop that follows `fft`, for the four indices.
  unfoldable pub decompose_at : ℕ → ℕ → ℕ → ℕ → (ℕ → Complex R) → ℕ → Complex R
  decompose_at i j k l x0 =
      let x1 = set_real x0 k (div (add (x0 i).imagin (x0 j).imagin) (of_ℕ 2)) in
      let x2 = set_real x1 l (x1 k).real in
      let x3 = set_imag x2 k (div (neg (sub (x2 i).real (x2 j).real)) (of_ℕ 2)) in
      let x4 = set_imag x3 l (neg (x3 k).imagin) in
      let x5 = set_real x4 i (div (add (x4 i).real (x4 j).real) (of_ℕ 2)) in
      let x6 = set_real x5 j (x5 i).real in
      let x7 = set_imag x6 i (div (sub (x6 i).imagin (x6 j).imagin) (of_ℕ 2)) in
      set_imag x7 j (neg (x7 i).imagin)

  unfoldable pub decompose_round : ℕ → ℕ → (ℕ → Complex R) → ℕ → Complex R
  unfolding decompose_at
  decompose_round m i x = (let j = m - i in decompose_at i j (i + m) (j + m) x)

  -- The statements behind that loop.
  unfoldable pub set_self_paired : ℕ → ℕ → ℕ → (ℕ → Complex R) → ℕ → Complex R
  set_self_paired size_n m nd4 x0 =
      let x1 = set_real x0 (size_n - nd4) (x0 nd4).imagin in
      let x2 = set_real x1 m (x1 0).imagin in
      let x3 = set_imag x2 (size_n - nd4) (of_ℕ 0) in
      let x4 = set_imag x3 m (of_ℕ 0) in let x5 = set_imag x4 nd4 (of_ℕ 0) in set_imag x5 0 (of_ℕ 0)

  -- The round of the last loop, of which the body is that of the innermost loop of `fft`.
  unfoldable pub last_round : ℕ → Complex R → ℕ → Turning R → Turning R
  unfolding turned pair_butterfly
  last_round m s i v = record { u = turned D v.u s; x = pair_butterfly D m v.u i v.x }

  unfoldable pub last_stage : TrigTables R → ℕ → ℕ → (ℕ → Complex R) → ℕ → Complex R
  unfolding last_round floor_log2_32
  last_stage tb fuel m x =
      let k = floor_log2_32 fuel m in
      let s : Complex R = record {
        real = get_or tb.cosines k tb.beyond;
        imagin = neg (get_or tb.sines k tb.beyond);
      } in
      let start : Turning R = record { u = record { real = of_ℕ 1; imagin = of_ℕ 0 }; x = x } in
      (for_up m (last_round m s) start).x

  -- `fft_real`, with the array that it leaves. The size is at least 4: with less, it writes behind
  -- the array.
  unfoldable pub serial_fft_real : TrigTables R → ℕ → ℕ → (ℕ → Complex R) → ℕ → Complex R
  unfolding pack_round serial_fft decompose_round set_self_paired last_stage
  serial_fft_real tb fuel size_n x =
      let m = size_n / 2 in
      let transformed = serial_fft D tb fuel m (for_up m pack_round x) in
      let nd4 = size_n / 4 in
      last_stage tb fuel m (
        set_self_paired size_n m nd4
          (for_up (nd4 - 1) (λ i. decompose_round m (i + 1)) transformed))

  -- The rounds of the three loops of `ifft_real`.
  unfoldable pub mirror_round : ℕ → ℕ → (ℕ → Complex R) → ℕ → Complex R
  mirror_round size_n k x =
      let y = set_real x k (x (size_n - k)).real in set_imag y k (neg (y (size_n - k)).imagin)

  unfoldable pub add_parts_round : ℕ → (ℕ → Complex R) → ℕ → Complex R
  add_parts_round k x = set_real x k (add (x k).real (x k).imagin)

  unfoldable pub combine_round : ℕ → ℕ → (ℕ → Complex R) → ℕ → Complex R
  combine_round size_n k x =
      let y = set_real x k (div (add (x k).real (x k).imagin) (of_ℕ size_n)) in
      set_imag y k (of_ℕ 0)

  -- `ifft_real`, with the array that it leaves.
  unfoldable pub serial_ifft_real : TrigTables R → ℕ → ℕ → (ℕ → Complex R) → ℕ → Complex R
  unfolding mirror_round add_parts_round combine_round serial_fft_real
  serial_ifft_real tb fuel size_n x =
      let first = size_n / 2 + 1 in
      let mirrored = for_up (size_n - first) (λ i. mirror_round size_n (first + i)) x in
      for_up size_n (combine_round size_n)
        (serial_fft_real tb fuel size_n (for_up size_n add_parts_round mirrored))
