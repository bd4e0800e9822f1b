-- ===== src/Mfs/CreateWrite.antt =====
-- MFS_Creat_h, MFS_Write_h, MFS_Lookup_h and MFS_Read_h of p5/MFS/server.c one after the other.
