-- ===== src/IoBuf/Examples.antt =====
-- iobuf.cpp: the theorems at a buffer of eight bytes that holds five.
use nanosrv.Common.{
  ◌-◌, ◌<◌, true, false, some, ◌++◌, ◌≡◌, ◌≢◌, refl, ◌⊎◌, arith, codes, take, replicate, min,
}
use nanosrv.IoBuf.{IoBuffer, roundup, iobuf_resize, iobuf_add, iobuf_del}
use nanosrv.IoBuf.Refines.{Represents, resize-Represents}
use nanosrv.IoBuf.Edits.{add-Represents, del-Represents, add_past_end}

abbrev hello : IoBuffer
hello = record { buf = codes "hello" ++ replicate 3 0; size = 8; len = 5; align = 4 }

hello-Represents : Represents hello (codes "hello")
hello-Represents = record { holds = refl; length_held = refl; fits = omega arith }

resize-Represents_example :
    let r = iobuf_resize (λ _. true) hello 3 in
    let m = roundup 3 4 in
    ((r.1 ≡ true) × (r.0.size ≡ m) × (r.0.align ≡ 4) × Represents r.0 (take m (codes "hello")))
    ⊎ ((r.1 ≡ false) × (m ≢ 8) × (true ≡ false) × (r.0 ≡ hello))
resize-Represents_example = resize-Represents (λ _. true) hello (codes "hello") 3 hello-Represents

add-Represents_example :
    let r = iobuf_add (λ _. true) hello 1 (some (codes "ipp")) 3 in
    ((r.1 ≡ 3) × Represents r.0 (codes "hippello"))
    ⊎ ((r.1 ≡ 0) × (true ≡ false) × Represents r.0 (codes "hello"))
add-Represents_example =
    add-Represents (λ _. true) hello (codes "hello") (codes "ipp") 1 hello-Represents (omega arith)
      (omega arith)

del-Represents_example :
    let r = iobuf_del hello 1 3 in (r.1 ≡ min 3 (5 - 1)) × Represents r.0 (codes "ho")
del-Represents_example = del-Represents hello (codes "hello") 1 3 hello-Represents (omega arith)

add_past_end_example :
    let r = iobuf_add (λ _. true) hello 10 (some (codes "abc")) 3 in r.0.size < r.0.len
add_past_end_example =
    add_past_end hello (codes "hello") (codes "abc") 10 hello-Represents (omega arith) (omega arith)
      (omega arith)
