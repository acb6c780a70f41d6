-- ===== src/Kernel/Types/Scalars.antt =====
-- The basic types of C on the target: an `int` has 4 bytes, a `long` and a pointer 8. An enum is
-- an `int`. Signs are not modelled: no member of a kernel struct is computed with.
use bouheki.CType.{CType, scalar}

abbrev pub char : CType
char = scalar 1

abbrev pub short : CType
short = scalar 2

abbrev pub int : CType
int = scalar 4

abbrev pub long : CType
long = scalar 8

abbrev pub pointer : CType
pointer = scalar 8
