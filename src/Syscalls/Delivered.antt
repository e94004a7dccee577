-- ===== src/Syscalls/Delivered.antt =====
-- kernel/user.c: `copy_to_user` into a page of the caller that is mapped.
use riscv_os.Prelude.{
  u64, ℕ, suc, ◌+◌, ◌*◌, ◌/◌, ◌%◌, ◌^◌, ◌≤◌, ◌<◌, ◌≡◌, ◌≢◌, refl, ap, sym, ◌∙◌, pos, negsuc, ◌||◌,
  true, some, List, [], ◌∷◌, ◌++◌, append-nil, ne→==_false, arith, length,
}
use riscv_os.Frames.{Memory, page_size}
use riscv_os.Frames.Chain.{store_ne}
use riscv_os.Paging.{Flags, flag_bits, pa_to_pte, slot, px2, px1, px0, walkaddr, maxva}
use riscv_os.Paging.Map.{Tables, px_bounds}
use riscv_os.Paging.Leaf.{IsMapped, store_page-Tables, walkaddr-Tables}
use riscv_os.Syscalls.Copy.{store_byte, copy_to_user}

-- The memory with the bytes stored one behind the other from an address on.
unfoldable pub stored_from : ℕ → List ℕ → Memory → Memory
unfolding store_byte
stored_from pa [] m = m
stored_from pa (b ∷ bytes) m = stored_from (pa + 1) bytes (store_byte pa b m)

copy_to_user-cons :
    (kernel_base pt dst pa b : ℕ) (bytes : List ℕ) (m : Memory)
    → walkaddr kernel_base pt dst m ≡ some pa
    → pa ≢ 0
    → copy_to_user kernel_base pt dst (b ∷ bytes) m
      ≡ copy_to_user kernel_base pt (u64 (dst + 1)) bytes (store_byte pa b m)
unfolding copy_to_user
copy_to_user-cons kernel_base pt dst pa b bytes m e ne =
    rw (copy_to_user, e) (rw (ne→==_false pa 0 ne) refl)

-- A byte of a page is in no word of another page.
byte_apart :
    (p q off i : ℕ)
    → p % page_size ≡ 0
    → q % page_size ≡ 0
    → off < page_size
    → i < 512
    → p ≢ q
    → (p + off) / 8 * 8 ≢ slot q i
byte_apart p q off i ep eq ho hi ne = omega arith

-- The page is mapped, and it is none of its tables.
record Leads (root va pa t1 t0 : ℕ) (flags : Flags) (l : List ℕ) (m : Memory) : Type 0 where
  tables : Tables m l root va t1 t0
  leaf : m.word (slot t0 (px0 va)) ≡ pa_to_pte pa + flag_bits flags
  apart_root : pa ≢ root
  apart1 : pa ≢ t1
  apart0 : pa ≢ t0

-- A byte that is stored in the page leaves its mapping.
store_byte-Leads :
    (root va pa t1 t0 : ℕ) (flags : Flags) (l : List ℕ) (off b : ℕ) (m : Memory)
    → pa % page_size ≡ 0
    → off < page_size
    → Leads root va pa t1 t0 flags l m
    → Leads root va pa t1 t0 flags l (store_byte (pa + off) b m)
unfolding store_byte
store_byte-Leads root va pa t1 t0 flags l off b m aligned small d =
    let t = d.tables in
    let ne2 =
      byte_apart pa root off (px2 va) aligned t.root_taken.aligned small (px_bounds va).0
        d.apart_root in
    let ne1 =
      byte_apart pa t1 off (px1 va) aligned t.taken1.aligned small (px_bounds va).1 d.apart1 in
    let ne0 =
      byte_apart pa t0 off (px0 va) aligned t.taken0.aligned small (px_bounds va).2 d.apart0 in
    record {
      tables = store_page-Tables root va t1 t0 ((pa + off) / 8 * 8) _ m l ne2 ne1 t;
      leaf = store_ne m.word ((pa + off) / 8 * 8) _ (λ e. ne0 (sym e)) ∙ d.leaf;
      apart_root = d.apart_root;
      apart1 = d.apart1;
      apart0 = d.apart0;
    }

module _ (kernel_base root va pa t1 t0 : ℕ) (flags : Flags) (l : List ℕ)
    (high : kernel_base ≤ maxva) (aligned : va % page_size ≡ 0) (low : va + page_size ≤ kernel_base)
    (pa_aligned : pa % page_size ≡ 0) (pa_fits : pa + page_size ≤ 2 ^ 64) (pa_pos : 0 < pa)
    (permission : (flags.r || (flags.w || flags.x)) ≡ true) where
  -- The bytes up to some place of the page, and those behind it
  copy_to_user-append :
      (off : ℕ) (bytes rest : List ℕ) (m : Memory)
      → Leads root va pa t1 t0 flags l m
      → off + length bytes ≤ page_size
      → copy_to_user kernel_base root (va + off) (bytes ++ rest) m
        ≡ copy_to_user kernel_base root
            (va + (off + length bytes))
            rest
            (stored_from (pa + off) bytes m)
  unfolding stored_from
  copy_to_user-append off [] rest m d h =
      let e : va + off ≡ va + (off + 0) = omega arith in
      ap (λ a. copy_to_user kernel_base root a rest m) e
  copy_to_user-append off (b ∷ bytes) rest m d h =
      let ea : u64 (va + off + 1) ≡ va + (off + 1) = omega arith in
      let ep : pa + (off + 1) ≡ pa + off + 1 = omega arith in
      let ee : va + (off + 1 + length bytes) ≡ va + (off + suc (length bytes)) = omega arith in
      let m' = store_byte (pa + off) b m in
      copy_to_user-cons kernel_base root (va + off) (pa + off) b (bytes ++ rest) m
        (walkaddr-Tables kernel_base root va off pa t1 t0 flags m l d.tables d.leaf high aligned
          (omega arith) (omega arith) pa_aligned (omega arith) permission)
        (λ z. absurd (omega (arith, z, pa_pos)))
      ∙ ap (λ a. copy_to_user kernel_base root a (bytes ++ rest) m') ea
      ∙ copy_to_user-append (off + 1) bytes rest m'
          (store_byte-Leads root va pa t1 t0 flags l off b m pa_aligned (omega arith) d)
          (omega arith)
      ∙ ap (λ a. copy_to_user kernel_base root a rest (stored_from (pa + (off + 1)) bytes m')) ee
      ∙ ap
          (λ a.
            copy_to_user kernel_base root (va + (off + suc (length bytes))) rest
              (stored_from a bytes m'))
          ep

module _ (ram_end kernel_base root va pa : ℕ) (flags : Flags) (m : Memory)
    (mapped : IsMapped ram_end root va pa flags m) (apart_root : pa ≢ root)
    (apart1 : pa ≢ mapped.t1) (apart0 : pa ≢ mapped.t0) (high : kernel_base ≤ maxva)
    (aligned : va % page_size ≡ 0) (low : va + page_size ≤ kernel_base)
    (pa_aligned : pa % page_size ≡ 0) (pa_fits : pa + page_size ≤ 2 ^ 64) (pa_pos : 0 < pa)
    (permission : (flags.r || (flags.w || flags.x)) ≡ true) where
  -- The mapping, for the loop
  mapped-append :
      (off : ℕ) (bytes rest : List ℕ)
      → off + length bytes ≤ page_size
      → copy_to_user kernel_base root (va + off) (bytes ++ rest) m
        ≡ copy_to_user kernel_base root
            (va + (off + length bytes))
            rest
            (stored_from (pa + off) bytes m)
  mapped-append off bytes rest h =
      copy_to_user-append kernel_base root va pa mapped.t1 mapped.t0 flags mapped.free_pages high
        aligned low pa_aligned pa_fits pa_pos permission off bytes rest m
        (record {
          tables = mapped.tables;
          leaf = mapped.leaf;
          apart_root = apart_root;
          apart1 = apart1;
          apart0 = apart0;
        })
        h

  -- For a page below the kernel that is mapped with some permission to a whole page within 64 bits
  -- that is not at 0 and is none of the three tables of the address, in the state that `map_page`
  -- leaves (`IsMapped`), and with the kernel below 2^39: all bytes that fit into the rest of the
  -- page from an offset on are stored, one behind the other, at the physical addresses of the page,
  -- nothing else is stored, and the result is 0.
  pub copy_to_user-IsMapped :
      (off : ℕ) (bytes : List ℕ)
      → off + length bytes ≤ page_size
      → copy_to_user kernel_base root (va + off) bytes m
        ≡ some (pos 0, stored_from (pa + off) bytes m)
  unfolding copy_to_user
  copy_to_user-IsMapped off bytes h =
      ap (λ l. copy_to_user kernel_base root (va + off) l m) (sym (append-nil bytes))
      ∙ mapped-append off bytes [] h

  -- For a page below the kernel that is mapped with some permission to a whole page within 64 bits
  -- that is not at 0 and is none of the three tables of the address, in the state that `map_page`
  -- leaves (`IsMapped`), and with the kernel below 2^39: when the bytes go on behind the page's end,
  -- and `walkaddr` gives 0 for the address there in the memory with the bytes up to the end of the
  -- page stored at its physical addresses, the result is -1, and the memory is that one.
  pub copy_to_user-error :
      (off : ℕ) (bytes : List ℕ) (c : ℕ) (rest : List ℕ)
      → off + length bytes ≡ page_size
      → walkaddr kernel_base root (va + page_size) (stored_from (pa + off) bytes m) ≡ some 0
      → copy_to_user kernel_base root (va + off) (bytes ++ c ∷ rest) m
        ≡ some (negsuc 0, stored_from (pa + off) bytes m)
  unfolding copy_to_user
  copy_to_user-error off bytes c rest h e =
      mapped-append off bytes (c ∷ rest) (omega (arith, h))
      ∙ ap (λ n. copy_to_user kernel_base root (va + n) (c ∷ rest) (stored_from (pa + off) bytes m))
          h
      ∙ rw (copy_to_user, e) refl
