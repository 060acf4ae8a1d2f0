-- ===== src/Kernel/Cpuid/Vendor.antt =====
-- The name that detect_cpu finds.
use free_micro_nix.Base.{
  ℕ, suc, ◌+◌, ◌/◌, ◌%◌, ◌^◌, ◌≤◌, ◌<◌, ◌≡◌, refl, ◌∙◌, ◌⊎◌, List, [], ◌∷◌, ◌++◌, arith, length,
  length-append, ◌>>=◌, Returns, Returns-bind, Returns-mono, ok, u8,
}
use free_micro_nix.Mem.{Mem, write, IsObject, SameOutside, CString}
use free_micro_nix.Mem.Laws.{IsObject-first, store-ok, IsObject-write, IsObject-part}
use free_micro_nix.Mem.Strings.{CString-same}
use free_micro_nix.Mem.Chars.{Ended, Ended-IsObject}
use free_micro_nix.Libc.Str.Copy.{strcpy, strcat}
use free_micro_nix.Libc.Str.Copy.Laws.{Placed, strcpy-Placed, strcat-append}
use free_micro_nix.Kernel.Cpuid.{Regs, put_line, cpu_cpuid, cpu_vendor_name, detect_cpu}

-- The bytes of a word, the lowest first.
abbrev pub bytes_of : ℕ → List ℕ
bytes_of w = w % 256 ∷ w / 2 ^ 8 % 256 ∷ w / 2 ^ 16 % 256 ∷ w / 2 ^ 24 % 256 ∷ []

-- None of them is 0.
abbrev pub IsNulless : ℕ → Type 0
IsNulless w =
    (0 < w % 256) × (0 < w / 2 ^ 8 % 256) × (0 < w / 2 ^ 16 % 256) × (0 < w / 2 ^ 24 % 256)

put_line-Ended :
    (m : Mem) (p w : ℕ)
    → IsNulless w
    → IsObject m p 5
    → Returns (Ended m p (bytes_of w)) (put_line m p w)
unfolding put_line write
put_line-Ended m p w (n0, n1, n2, n3) obj =
    let m1 = write m p (u8 w) in
    let m2 = write m1 (p + 1) (u8 (w / 2 ^ 8)) in
    let m3 = write m2 (p + 2) (u8 (w / 2 ^ 16)) in
    let m4 = write m3 (p + 3) (u8 (w / 2 ^ 24)) in
    rw (store-ok m p (u8 w) (IsObject-first m p 4 obj)) (
      rw (store-ok m1 (p + 1) (u8 (w / 2 ^ 8)) (IsObject-write m p (u8 w) p 5 obj 1 (omega arith)))
        (rw (store-ok m2 (p + 2) (u8 (w / 2 ^ 16)) (ground (arith, obj 2))) (
          rw (store-ok m3 (p + 3) (u8 (w / 2 ^ 24)) (ground (arith, obj 3))) (
            rw (store-ok m4 (p + 4) 0 (ground (arith, obj 4))) (
              _,
              refl,
              record {
                text = (
                  ground arith,
                  n0,
                  omega arith,
                  (
                    ground arith,
                    n1,
                    omega arith,
                    (ground arith, n2, omega arith, (ground arith, n3, omega arith, ground arith)),
                  ),
                );
                outside = λ a out. ground arith;
              },
            )))))

-- The `n` bytes from `p` on and the `k` from `q` on do not overlap.
abbrev pub Clear : ℕ → ℕ → ℕ → ℕ → Type 0
Clear p n q k = (p + n ≤ q) ⊎ (q + k ≤ p)

-- The place for the name and the three local arrays are objects of their own.
pub record Frame (m : Mem) (name line1 line2 line3 : ℕ) : Type 0 where
  pub room : IsObject m name 13
  pub first : IsObject m line1 5
  pub second : IsObject m line2 5
  pub third : IsObject m line3 5
  pub first_second : Clear line1 5 line2 5
  pub first_third : Clear line1 5 line3 5
  pub second_third : Clear line2 5 line3 5
  pub name_first : Clear name 13 line1 5
  pub name_second : Clear name 13 line2 5
  pub name_third : Clear name 13 line3 5

-- The maker's name: the words ebx, edx and ecx.
abbrev pub vendor : Regs → List ℕ
vendor r = bytes_of r.ebx ++ bytes_of r.edx ++ bytes_of r.ecx

-- The name stands as a string, and no byte has changed but those of the name and the arrays.
pub record Named (m : Mem) (name line1 line2 line3 : ℕ) (cs : List ℕ) (g : Mem) : Type 0 where
  pub text : CString g name cs
  pub others :
      (a : ℕ)
      → Clear a 1 name 13
      → Clear a 1 line1 5
      → Clear a 1 line2 5
      → Clear a 1 line3 5
      → g a ≡ m a

-- A text elsewhere is kept by what is placed at the name.
Placed-CString :
    {m g : Mem} {name : ℕ} (ds cs : List ℕ) (p : ℕ)
    → Placed m name ds g
    → length ds < 13
    → Clear name 13 p (suc (length cs))
    → CString m p cs
    → CString g p cs
Placed-CString {m} {g} ds cs p placed short apart str =
    CString-same cs m g p str λ a low high. placed.outside a (omega arith)

-- The end of cpu_vendor_name: three texts of four bytes, one behind the other.
strcat-joined :
    (x y z : List ℕ) (f name p q r : ℕ) (m : Mem)
    → (length x ≡ 4) × (length y ≡ 4) × (length z ≡ 4)
    → CString m p x × CString m q y × CString m r z
    → Clear name 13 p 5 × Clear name 13 q 5 × Clear name 13 r 5
    → IsObject m name 13
    → 8 < f
    → Returns {A = Mem × ℕ}
        (λ (g, n). (n ≡ 15) × CString g name ((x ++ y) ++ z) × SameOutside name 13 m g)
        (do
          (m, _) ← strcpy f m name p
          (m, _) ← strcat f m name q
          (m, _) ← strcat f m name r
          ok (m, 15))
strcat-joined x y z f name p q r m (lx, ly, lz) (sx, sy, sz) (cx, cy, cz) obj fuel =
    let lxy = length-append x y in
    Returns-bind
      (strcpy-Placed x f m name p sx (omega arith) (omega arith)
        (IsObject-part m name 13 name (suc (length x)) obj (omega arith) (omega arith)))
      λ (m1, _) (_, e1).
        Returns-bind
          (strcat-append x y f m1 name q e1.text
            (Placed-CString x y q e1 (omega arith) (omega arith) sy) (omega arith) (omega arith)
            (omega arith)
            (IsObject-part m1 name 13 name (suc (length x + length y))
              (Ended-IsObject x name 13 e1 obj) (omega arith) (omega arith)))
          λ (m2, _) (_, e2).
            Returns-bind
              (strcat-append (x ++ y) z f m2 name r e2.text
                (Placed-CString (x ++ y) z r e2 (omega arith) (omega arith)
                  (Placed-CString x z r e1 (omega arith) (omega arith) sz))
                (omega arith) (omega arith) (omega arith)
                (IsObject-part m2 name 13 name (suc (length (x ++ y) + length z))
                  (Ended-IsObject (x ++ y) name 13 e2 (Ended-IsObject x name 13 e1 obj))
                  (omega arith) (omega arith)))
              λ (m3, _) (_, e3). (
                _,
                refl,
                (
                  refl,
                  e3.text,
                  λ a out.
                      e3.outside a (omega (arith, length-append (x ++ y) z))
                      ∙ e2.outside a (omega arith)
                      ∙ e1.outside a (omega arith),
                ),
              )

cpu_vendor_name-Named :
    (cpuid : ℕ → Regs) (f line1 line2 line3 name : ℕ) (m : Mem)
    → Frame m name line1 line2 line3
    → IsNulless (cpuid 0).ebx
    → IsNulless (cpuid 0).ecx
    → IsNulless (cpuid 0).edx
    → 8 < f
    → Returns
        (λ (g, n). (n ≡ 15) × Named m name line1 line2 line3 (vendor (cpuid 0)) g)
        (cpu_vendor_name cpuid f line1 line2 line3 m name)
unfolding cpu_vendor_name cpu_cpuid
cpu_vendor_name-Named cpuid f line1 line2 line3 name m s b c d fuel =
    let x = bytes_of (cpuid 0).ebx in
    let z = bytes_of (cpuid 0).ecx in
    let y = bytes_of (cpuid 0).edx in
    Returns-bind (put_line-Ended m line1 (cpuid 0).ebx b s.first) λ m1 e1.
      Returns-bind (put_line-Ended m1 line2 (cpuid 0).ecx c (Ended-IsObject x line2 5 e1 s.second))
        λ m2 e2.
          Returns-bind
            (put_line-Ended m2 line3 (cpuid 0).edx d
              (Ended-IsObject z line3 5 e2 (Ended-IsObject x line3 5 e1 s.third)))
            λ m3 e3.
              let text1 = CString-same x m1 m3 line1 e1.text λ a low high.
                e3.outside a (omega (arith, s.first_third))
                ∙ e2.outside a (omega (arith, s.first_second)) in
              let text2 =
                CString-same z m2 m3 line2 e2.text
                  λ a low high. e3.outside a (omega (arith, s.second_third)) in
              let room =
                Ended-IsObject y name 13 e3
                  (Ended-IsObject z name 13 e2 (Ended-IsObject x name 13 e1 s.room)) in
              Returns-mono
                (strcat-joined x y z f name line1 line3 line2 m3 (refl, refl, refl)
                  (text1, e3.text, text2) (s.name_first, s.name_third, s.name_second) room fuel)
                λ (g, n) (same, text, outside). (
                  same,
                  record {
                    text = text;
                    others = λ a o0 o1 o2 o3.
                        outside a (omega arith)
                        ∙ e3.outside a (omega arith)
                        ∙ e2.outside a (omega arith)
                        ∙ e1.outside a (omega arith);
                  },
                )

-- For an answer to the code 0 whose words ebx, ecx and edx have no byte 0, with the name and the three
-- arrays apart from one another and more fuel than 8, detect_cpu ends in bounds and returns its array,
-- where the bytes of ebx, edx and ecx then stand as a string; no byte changes but those of the name and
-- the arrays.
pub detect_cpu-vendor :
    (cpuid : ℕ → Regs) (f line1 line2 line3 name : ℕ) (m : Mem)
    → Frame m name line1 line2 line3
    → IsNulless (cpuid 0).ebx
    → IsNulless (cpuid 0).ecx
    → IsNulless (cpuid 0).edx
    → 8 < f
    → Returns
        (λ (g, r). (r ≡ name) × Named m name line1 line2 line3 (vendor (cpuid 0)) g)
        (detect_cpu cpuid f line1 line2 line3 name m)
unfolding detect_cpu
detect_cpu-vendor cpuid f line1 line2 line3 name m s b c d fuel =
    Returns-bind (cpu_vendor_name-Named cpuid f line1 line2 line3 name m s b c d fuel)
      λ (g, n) (_, named). (_, refl, (refl, named))
