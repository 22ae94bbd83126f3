-- ===== src/Wire/Fixed/Tame.antt =====
-- The readers of fixed integers never give more bytes than they got.
use go_rsyncfs.Base.{arith}
use go_rsyncfs.Io.Tame.{
  IsTame, bind-IsTame, return-IsTame, if-IsTame, read_full-IsTame, IsStrict, bind-IsStrict,
  read_full-IsStrict,
}
use go_rsyncfs.Wire.Fixed.{read_uint32, read_int32, read_longint, read_longint_rest}

ruleset tame = (bind-IsTame, return-IsTame, if-IsTame, read_full-IsTame)

pub read_uint32-IsTame : IsTame read_uint32
unfolding read_uint32
read_uint32-IsTame = search tame

pub read_int32-IsTame : IsTame read_int32
unfolding read_int32
read_int32-IsTame = search tame

pub read_longint-IsTame : IsTame read_longint
unfolding read_longint read_longint_rest
read_longint-IsTame = search tame

pub read_int32-IsStrict : IsStrict read_int32
unfolding read_int32
read_int32-IsStrict = bind-IsStrict _ _ (read_full-IsStrict 4 (omega arith)) (λ b. return-IsTame _)
