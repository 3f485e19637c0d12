-- ===== src/Io/Tests.antt =====
-- A C library stream over a short file, and `FileMemorySource` over it.
use mem_nix_fs.Base.{ℕ, ◌+◌, ◌-◌, ◌≡◌, refl, ap, sym, some, false, some_injective, min, ok}
use mem_nix_fs.Io.{bytes}
use mem_nix_fs.Io.File.{CStdio, IsReadable, file_read, file_read-bytes}

-- A file of five bytes; the position is the state of the stream.
abbrev file : ℕ → ℕ
file i = i + 65

abbrev stdio : CStdio
stdio = record {
  Stream = ℕ;
  seek = λ off s. some off;
  fread = λ n s. (bytes file s (min n (5 - s)), s + min n (5 - s));
  ferror = λ s. false;
}

stdio-IsReadable : IsReadable stdio 5 file
stdio-IsReadable = record {
  seeks = λ off s h. (off, refl);
  freads = λ off n s t e. ap (λ x. bytes file x (min n (5 - x))) (sym (some_injective e));
}

file_read-bytes_example : (file_read stdio 5 3 9 0).0 ≡ ok (bytes file 3 (min 9 (5 - 3)))
file_read-bytes_example = file_read-bytes stdio 5 file stdio-IsReadable 3 9 0
