-- ===== src/Disk/Files.antt =====
-- What a name leads to after a file was put or deleted.
use sim_logger.Prelude.{
  true, false, List, [], ◌∷◌, none, some, ◌≡◌, ◌≢◌, refl, ◌∙◌, inl, inr, if◌then◌else◌, arith,
  Bool-cases, Bytes, bytes_eq, bytes_eq_iff,
}
use sim_logger.Disk.{File, get, put, del, text_of}

pub eq_test : (n m : Bytes) → n ≡ m → bytes_eq n m ≡ true
eq_test n m e = (bytes_eq_iff n m).1 e

pub ne_test : (n m : Bytes) → n ≢ m → bytes_eq n m ≡ false
ne_test n m h = elim (Bool-cases (bytes_eq n m)) [
  | inl y ↦ absurd (h ((bytes_eq_iff n m).0 y))
  | inr x ↦ x
]

pub get-put :
    (n m c : Bytes) (fs : List File)
    → get n (put m c fs) ≡ (if bytes_eq m n then some c else get n fs)
unfolding get put
get-put n m c [] = refl
get-put n m c (f ∷ fs) =
    ground (arith, get-put n m c fs, bytes_eq_iff f.name m, bytes_eq_iff f.name n, bytes_eq_iff m n)

pub get-del :
    (n m : Bytes) (fs : List File) → get n (del m fs) ≡ (if bytes_eq m n then none else get n fs)
unfolding get del
get-del n m [] = ground arith
get-del n m (f ∷ fs) =
    ground (arith, get-del n m fs, bytes_eq_iff f.name m, bytes_eq_iff f.name n, bytes_eq_iff m n)

pub get-put_self : (n c : Bytes) (fs : List File) → get n (put n c fs) ≡ some c
get-put_self n c fs = get-put n n c fs ∙ rw (eq_test n n refl)

pub get-put_ne : (n m c : Bytes) (fs : List File) → m ≢ n → get n (put m c fs) ≡ get n fs
get-put_ne n m c fs h = get-put n m c fs ∙ rw (ne_test m n h)

pub get-del_ne : (n m : Bytes) (fs : List File) → m ≢ n → get n (del m fs) ≡ get n fs
get-del_ne n m fs h = get-del n m fs ∙ rw (ne_test m n h)

pub get-del_self : (n : Bytes) (fs : List File) → get n (del n fs) ≡ none
get-del_self n fs = get-del n n fs ∙ rw (eq_test n n refl)

pub text_of-put_self : (n c : Bytes) (fs : List File) → text_of n (put n c fs) ≡ c
unfolding text_of
text_of-put_self n c fs = rw (get-put_self n c fs, text_of)

pub text_of-get : (n c : Bytes) (fs : List File) → get n fs ≡ some c → text_of n fs ≡ c
unfolding text_of
text_of-get n c fs e = rw (e, text_of)

pub text_of-put_ne :
    (n m c : Bytes) (fs : List File) → m ≢ n → text_of n (put m c fs) ≡ text_of n fs
unfolding text_of
text_of-put_ne n m c fs h = rw (get-put_ne n m c fs h, text_of)
