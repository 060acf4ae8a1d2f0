-- ===== src/Kernel/Ascii.antt =====
-- kernel/include/x86/ascii.h: the names of the characters.
pub mod Code

-- The letters are `upper_a` for ASCII_A and `lower_a` for ASCII_a, the digits `digit_0` for ASCII_0.
pub data Ascii : Type 0 where
  nul : Ascii
  soh : Ascii
  stx : Ascii
  etx : Ascii
  eot : Ascii
  enq : Ascii
  ack : Ascii
  bel : Ascii
  bs : Ascii
  ht : Ascii
  lf : Ascii
  vt : Ascii
  ff : Ascii
  cr : Ascii
  so : Ascii
  si : Ascii
  dle : Ascii
  dc1 : Ascii
  dc2 : Ascii
  dc3 : Ascii
  dc4 : Ascii
  nak : Ascii
  syn : Ascii
  etb : Ascii
  can : Ascii
  em : Ascii
  sub : Ascii
  esc : Ascii
  fs : Ascii
  gs : Ascii
  rs : Ascii
  us : Ascii
  sp : Ascii
  bang : Ascii
  dquote : Ascii
  hash : Ascii
  dollar : Ascii
  percent : Ascii
  and : Ascii
  squote : Ascii
  lparen : Ascii
  rparen : Ascii
  star : Ascii
  plus : Ascii
  comma : Ascii
  minus : Ascii
  dot : Ascii
  slash : Ascii
  digit_0 : Ascii
  digit_1 : Ascii
  digit_2 : Ascii
  digit_3 : Ascii
  digit_4 : Ascii
  digit_5 : Ascii
  digit_6 : Ascii
  digit_7 : Ascii
  digit_8 : Ascii
  digit_9 : Ascii
  colon : Ascii
  semicolon : Ascii
  larrow : Ascii
  equals : Ascii
  rarrow : Ascii
  question : Ascii
  at : Ascii
  upper_a : Ascii
  upper_b : Ascii
  upper_c : Ascii
  upper_d : Ascii
  upper_e : Ascii
  upper_f : Ascii
  upper_g : Ascii
  upper_h : Ascii
  upper_i : Ascii
  upper_j : Ascii
  upper_k : Ascii
  upper_l : Ascii
  upper_m : Ascii
  upper_n : Ascii
  upper_o : Ascii
  upper_p : Ascii
  upper_q : Ascii
  upper_r : Ascii
  upper_s : Ascii
  upper_t : Ascii
  upper_u : Ascii
  upper_v : Ascii
  upper_w : Ascii
  upper_x : Ascii
  upper_y : Ascii
  upper_z : Ascii
  lbracket : Ascii
  backslash : Ascii
  rbracket : Ascii
  caret : Ascii
  underscore : Ascii
  backtick : Ascii
  lower_a : Ascii
  lower_b : Ascii
  lower_c : Ascii
  lower_d : Ascii
  lower_e : Ascii
  lower_f : Ascii
  lower_g : Ascii
  lower_h : Ascii
  lower_i : Ascii
  lower_j : Ascii
  lower_k : Ascii
  lower_l : Ascii
  lower_m : Ascii
  lower_n : Ascii
  lower_o : Ascii
  lower_p : Ascii
  lower_q : Ascii
  lower_r : Ascii
  lower_s : Ascii
  lower_t : Ascii
  lower_u : Ascii
  lower_v : Ascii
  lower_w : Ascii
  lower_x : Ascii
  lower_y : Ascii
  lower_z : Ascii
  lbrace : Ascii
  pipe : Ascii
  rbrace : Ascii
  tilde : Ascii
  del : Ascii
