-- ===== src/Kernel/Ascii/Code.antt =====
-- The numbers that kernel/include/x86/ascii.h gives to its names.
use Prim.Native.Nat.{ℕ}
use free_micro_nix.Kernel.Ascii.{
  Ascii, nul, soh, stx, etx, eot, enq, ack, bel, bs, ht, lf, vt, ff, cr, so, si, dle, dc1, dc2, dc3,
  dc4, nak, syn, etb, can, em, sub, esc, fs, gs, rs, us, sp, bang, dquote, hash, dollar, percent,
  and, squote, lparen, rparen, star, plus, comma, minus, dot, slash, digit_0, digit_1, digit_2,
  digit_3, digit_4, digit_5, digit_6, digit_7, digit_8, digit_9, colon, semicolon, larrow, equals,
  rarrow, question, at, upper_a, upper_b, upper_c, upper_d, upper_e, upper_f, upper_g, upper_h,
  upper_i, upper_j, upper_k, upper_l, upper_m, upper_n, upper_o, upper_p, upper_q, upper_r, upper_s,
  upper_t, upper_u, upper_v, upper_w, upper_x, upper_y, upper_z, lbracket, backslash, rbracket,
  caret, underscore, backtick, lower_a, lower_b, lower_c, lower_d, lower_e, lower_f, lower_g,
  lower_h, lower_i, lower_j, lower_k, lower_l, lower_m, lower_n, lower_o, lower_p, lower_q, lower_r,
  lower_s, lower_t, lower_u, lower_v, lower_w, lower_x, lower_y, lower_z, lbrace, pipe, rbrace,
  tilde, del,
}

unfoldable pub ascii_code : Ascii → ℕ
ascii_code nul = 0
ascii_code soh = 1
ascii_code stx = 2
ascii_code etx = 3
ascii_code eot = 4
ascii_code enq = 5
ascii_code ack = 6
ascii_code bel = 7
ascii_code bs = 8
ascii_code ht = 9
ascii_code lf = 10
ascii_code vt = 11
ascii_code ff = 12
ascii_code cr = 13
ascii_code so = 14
ascii_code si = 15
ascii_code dle = 16
ascii_code dc1 = 17
ascii_code dc2 = 18
ascii_code dc3 = 19
ascii_code dc4 = 20
ascii_code nak = 21
ascii_code syn = 22
ascii_code etb = 23
ascii_code can = 24
ascii_code em = 25
ascii_code sub = 26
ascii_code esc = 27
ascii_code fs = 28
ascii_code gs = 29
ascii_code rs = 30
ascii_code us = 31
ascii_code sp = 32
ascii_code bang = 33
ascii_code dquote = 34
ascii_code hash = 35
ascii_code dollar = 36
ascii_code percent = 37
ascii_code and = 38
ascii_code squote = 39
ascii_code lparen = 40
ascii_code rparen = 41
ascii_code star = 42
ascii_code plus = 43
ascii_code comma = 44
ascii_code minus = 45
ascii_code dot = 46
ascii_code slash = 47
ascii_code digit_0 = 48
ascii_code digit_1 = 49
ascii_code digit_2 = 50
ascii_code digit_3 = 51
ascii_code digit_4 = 52
ascii_code digit_5 = 53
ascii_code digit_6 = 54
ascii_code digit_7 = 55
ascii_code digit_8 = 56
ascii_code digit_9 = 57
ascii_code colon = 58
ascii_code semicolon = 59
ascii_code larrow = 60
ascii_code equals = 61
ascii_code rarrow = 62
ascii_code question = 63
ascii_code at = 64
ascii_code upper_a = 65
ascii_code upper_b = 66
ascii_code upper_c = 67
ascii_code upper_d = 68
ascii_code upper_e = 69
ascii_code upper_f = 70
ascii_code upper_g = 71
ascii_code upper_h = 72
ascii_code upper_i = 73
ascii_code upper_j = 74
ascii_code upper_k = 75
ascii_code upper_l = 76
ascii_code upper_m = 77
ascii_code upper_n = 78
ascii_code upper_o = 79
ascii_code upper_p = 80
ascii_code upper_q = 81
ascii_code upper_r = 82
ascii_code upper_s = 83
ascii_code upper_t = 84
ascii_code upper_u = 85
ascii_code upper_v = 86
ascii_code upper_w = 87
ascii_code upper_x = 88
ascii_code upper_y = 89
ascii_code upper_z = 90
ascii_code lbracket = 91
ascii_code backslash = 92
ascii_code rbracket = 93
ascii_code caret = 94
ascii_code underscore = 95
ascii_code backtick = 96
ascii_code lower_a = 97
ascii_code lower_b = 98
ascii_code lower_c = 99
ascii_code lower_d = 100
ascii_code lower_e = 101
ascii_code lower_f = 102
ascii_code lower_g = 103
ascii_code lower_h = 104
ascii_code lower_i = 105
ascii_code lower_j = 106
ascii_code lower_k = 107
ascii_code lower_l = 108
ascii_code lower_m = 109
ascii_code lower_n = 110
ascii_code lower_o = 111
ascii_code lower_p = 112
ascii_code lower_q = 113
ascii_code lower_r = 114
ascii_code lower_s = 115
ascii_code lower_t = 116
ascii_code lower_u = 117
ascii_code lower_v = 118
ascii_code lower_w = 119
ascii_code lower_x = 120
ascii_code lower_y = 121
ascii_code lower_z = 122
ascii_code lbrace = 123
ascii_code pipe = 124
ascii_code rbrace = 125
ascii_code tilde = 126
ascii_code del = 127
