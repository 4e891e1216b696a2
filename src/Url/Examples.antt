-- ===== src/Url/Examples.antt =====
-- url.cpp: the theorem at a concrete URL.
use nanosrv.Common.{◌+◌, ◌≤◌, codes, length}
use nanosrv.Url.{urlparse, host_len}
use nanosrv.Url.Bounds.{IsOrdered, urlparse-IsOrdered}

urlparse-IsOrdered_example :
    let u = urlparse (codes "http://u:p@a.b:80/c") in
    IsOrdered (length (codes "http://u:p@a.b:80/c")) u
    × (u.host + host_len u ≤ length (codes "http://u:p@a.b:80/c"))
urlparse-IsOrdered_example = urlparse-IsOrdered (codes "http://u:p@a.b:80/c")
