-- ===== src/RegWrCb/Simulated.antt =====
-- regwr_cb.c over two register buses that behave alike: every call does the same on both.
use linux_uart.Base.{ℕ, ◌*◌, ◌/◌, ◌%◌, ◌≤◌, ◌<◌, ◌^◌, ◌≡◌, arith, List, [], ◌∷◌, length, replicate}
use native.Mathlib.Nat.{mul-le-mul_right}
use linux_uart.Base.Int.{to_ℕ}
use linux_uart.MemCtrl.{mem_bytes}
use linux_uart.MemCtrl.Reverse.{length-mem_bytes}
use linux_uart.RegWrCb.{
  RegWrCbHandle, reg_at, clip, cbreg_cmd_get_size, cbreg_cmd_get_freesize, cbreg_cmd_read,
  cbreg_cmd_write, cbreg_cmd_clean, cbreg_cmd_readair, cbreg_cmd_peep, read_int, size, free_size,
  fetch, read, peep, write, gran_read, gran_write, clean, read_air,
}

-- What an access of at most `limit` registers, with a buffer that is large enough, does to `h` in a state `s`, it does to `g` in every
-- state `t` that stands for it.
pub record Simulates {S T : Type 0} (h : RegWrCbHandle S) (g : RegWrCbHandle T) (timeout limit : ℕ)
    (Stands : T → S → Type 0) : Type 0 where
  pub reads :
      (addr n : ℕ) (buf : List ℕ) (t : T) (s : S)
      → addr < 2 ^ 16
      → n ≤ limit
      → n ≤ length buf
      → Stands t s
      → let (ret, out_data, s1) = h.read_reg addr buf n timeout s in
        let (ret', out', t1) = g.read_reg addr buf n timeout t in
        (ret ≡ ret') × (out_data ≡ out') × Stands t1 s1
  pub writes :
      (addr n : ℕ) (bytes : List ℕ) (t : T) (s : S)
      → addr < 2 ^ 16
      → n ≤ limit
      → n ≤ length bytes
      → Stands t s
      → let (ret, s1) = h.write_reg addr bytes n timeout s in
        let (ret', t1) = g.write_reg addr bytes n timeout t in (ret ≡ ret') × Stands t1 s1

fewer_bytes :
    (used nmemb gran_size : ℕ)
    → clip used (nmemb % 2 ^ 16) * gran_size % 2 ^ 32 % 2 ^ 16 ≤ nmemb * gran_size
fewer_bytes used nmemb gran_size =
    let few : clip used (nmemb % 2 ^ 16) ≤ nmemb = ground arith in
    omega (arith, mul-le-mul_right gran_size few)

module _ {S T : Type 0} (h : RegWrCbHandle S) (g : RegWrCbHandle T) (timeout limit : ℕ)
    (Stands : T → S → Type 0) (sim : Simulates h g timeout limit Stands) (enough : 4 ≤ limit) where
  read_int-same :
      (addr : ℕ) (t : T) (s : S)
      → addr < 2 ^ 16
      → Stands t s
      → let (ret, s1) = read_int h addr timeout s in
        let (ret', t1) = read_int g addr timeout t in (ret ≡ ret') × Stands t1 s1
  unfolding read_int
  read_int-same addr t s ha rel =
      ground (arith, sim.reads addr 4 (replicate 4 0) t s ha enough (omega arith) rel)

  pub write-same :
      (cb_addr : ℕ) (bytes : List ℕ) (data_size : ℕ) (t : T) (s : S)
      → data_size ≤ limit
      → data_size ≤ length bytes
      → Stands t s
      → let (ret, s1) = write h cb_addr bytes data_size timeout s in
        let (ret', t1) = write g cb_addr bytes data_size timeout t in (ret ≡ ret') × Stands t1 s1
  unfolding write free_size
  write-same cb_addr bytes data_size t s hn fits rel =
      let (free, t1) = free_size g cb_addr timeout t in
      let s1 = (free_size h cb_addr timeout s).1 in
      let n = clip (data_size % 2 ^ 16) (to_ℕ free) in
      ground (
        arith,
        read_int-same (reg_at cb_addr cbreg_cmd_get_freesize) t s (omega arith) rel,
        sim.writes (reg_at cb_addr cbreg_cmd_write) n bytes t1 s1 (omega arith) (ground arith)
            (ground arith),
      )

  fetch-same :
      (cmd cb_addr : ℕ) (buf : List ℕ) (buf_size : ℕ) (t : T) (s : S)
      → buf_size ≤ limit
      → buf_size ≤ length buf
      → Stands t s
      → let (ret, out_data, s1) = fetch h cmd cb_addr buf buf_size timeout s in
        let (ret', out', t1) = fetch g cmd cb_addr buf buf_size timeout t in
        (ret ≡ ret') × (out_data ≡ out') × Stands t1 s1
  unfolding fetch size
  fetch-same cmd cb_addr buf buf_size t s hn fits rel =
      let (used, t1) = size g cb_addr timeout t in
      let s1 = (size h cb_addr timeout s).1 in
      let n = clip (buf_size % 2 ^ 16) (to_ℕ used) in
      ground (
        arith,
        read_int-same (reg_at cb_addr cbreg_cmd_get_size) t s (omega arith) rel,
        sim.reads (reg_at cb_addr cmd) n buf t1 s1 (omega arith) (ground arith) (ground arith),
      )

  pub read-same :
      (cb_addr : ℕ) (buf : List ℕ) (buf_size : ℕ) (t : T) (s : S)
      → buf_size ≤ limit
      → buf_size ≤ length buf
      → Stands t s
      → let (ret, out_data, s1) = read h cb_addr buf buf_size timeout s in
        let (ret', out', t1) = read g cb_addr buf buf_size timeout t in
        (ret ≡ ret') × (out_data ≡ out') × Stands t1 s1
  unfolding read
  read-same cb_addr = fetch-same cbreg_cmd_read cb_addr

  peep-same :
      (cb_addr : ℕ) (buf : List ℕ) (buf_size : ℕ) (t : T) (s : S)
      → buf_size ≤ limit
      → buf_size ≤ length buf
      → Stands t s
      → let (ret, out_data, s1) = peep h cb_addr buf buf_size timeout s in
        let (ret', out', t1) = peep g cb_addr buf buf_size timeout t in
        (ret ≡ ret') × (out_data ≡ out') × Stands t1 s1
  unfolding peep
  peep-same cb_addr = fetch-same cbreg_cmd_peep cb_addr

  pub clean-same :
      (cb_addr : ℕ) (t : T) (s : S)
      → Stands t s
      → let (ret, s1) = clean h cb_addr timeout s in
        let (ret', t1) = clean g cb_addr timeout t in (ret ≡ ret') × Stands t1 s1
  unfolding clean
  clean-same cb_addr t s rel = ground (
    arith,
    sim.writes (reg_at cb_addr cbreg_cmd_clean) 1 (0x00 ∷ []) t s (omega arith) (omega arith)
        (omega arith) rel,
  )

  read_air-same :
      (cb_addr read_size : ℕ) (t : T) (s : S)
      → Stands t s
      → let (ret, s1) = read_air h cb_addr read_size timeout s in
        let (ret', t1) = read_air g cb_addr read_size timeout t in (ret ≡ ret') × Stands t1 s1
  unfolding read_air size
  read_air-same cb_addr read_size t s rel =
      let (used, t1) = size g cb_addr timeout t in
      let s1 = (size h cb_addr timeout s).1 in
      let n = clip (read_size % 2 ^ 16) (to_ℕ used) in
      ground (
        arith,
        read_int-same (reg_at cb_addr cbreg_cmd_get_size) t s (omega arith) rel,
        sim.writes (reg_at cb_addr cbreg_cmd_readair) 4 (mem_bytes 4 n) t1 s1 (omega arith) enough
            (omega (arith, length-mem_bytes 4 n)),
      )

  -- The bytes that the elements take are at most as many as the caller's elements take.
  pub gran_read-same :
      (cb_addr : ℕ) (bytes : List ℕ) (gran_size nmemb : ℕ) (t : T) (s : S)
      → nmemb * gran_size ≤ limit
      → nmemb * gran_size ≤ length bytes
      → Stands t s
      → let (ret, out_data, s1) = gran_read h cb_addr bytes gran_size nmemb timeout s in
        let (ret', out', t1) = gran_read g cb_addr bytes gran_size nmemb timeout t in
        (ret ≡ ret') × (out_data ≡ out') × Stands t1 s1
  unfolding gran_read size
  gran_read-same cb_addr bytes gran_size nmemb t s hn fits rel =
      let (used, t1) = size g cb_addr timeout t in
      let s1 = (size h cb_addr timeout s).1 in
      let n = clip (to_ℕ used / gran_size) (nmemb % 2 ^ 16) in
      let few = fewer_bytes (to_ℕ used / gran_size) nmemb gran_size in
      ground (
        arith,
        read_int-same (reg_at cb_addr cbreg_cmd_get_size) t s (omega arith) rel,
        sim.reads (reg_at cb_addr cbreg_cmd_read) (n * gran_size % 2 ^ 32 % 2 ^ 16) bytes t1 s1
            (omega arith) (omega arith) (omega arith),
      )

  pub gran_write-same :
      (cb_addr : ℕ) (bytes : List ℕ) (gran_size nmemb : ℕ) (t : T) (s : S)
      → nmemb * gran_size ≤ limit
      → nmemb * gran_size ≤ length bytes
      → Stands t s
      → let (ret, s1) = gran_write h cb_addr bytes gran_size nmemb timeout s in
        let (ret', t1) = gran_write g cb_addr bytes gran_size nmemb timeout t in
        (ret ≡ ret') × Stands t1 s1
  unfolding gran_write free_size
  gran_write-same cb_addr bytes gran_size nmemb t s hn fits rel =
      let (free, t1) = free_size g cb_addr timeout t in
      let s1 = (free_size h cb_addr timeout s).1 in
      let n = clip (to_ℕ free / gran_size) (nmemb % 2 ^ 16) in
      let few = fewer_bytes (to_ℕ free / gran_size) nmemb gran_size in
      ground (
        arith,
        read_int-same (reg_at cb_addr cbreg_cmd_get_freesize) t s (omega arith) rel,
        sim.writes (reg_at cb_addr cbreg_cmd_write) (n * gran_size % 2 ^ 32 % 2 ^ 16) bytes t1 s1
            (omega arith) (omega arith) (omega arith),
      )
